-- ===== src/Linux/Rounds.antt =====
-- internal/backend/backend_linux.go: what a round of run's loop leaves, and when the loop ends.
use go_gaze.Common.{
  ℕ, suc, ◌≡◌, ◌≤◌, refl, sym, ◌∙◌, ap, Bool, true, false, ◌&&◌, not, Option, some, List, [], ◌∷◌,
  arith, Bytes, ltb, length, length-append, if_keeps, if_cases,
}
use go_gaze.Common.Assoc.{Map}
use go_gaze.FilePath.{has_path_prefix}
use go_gaze.Ops.{Event}
use go_gaze.Env.{BackendConfig}
use go_gaze.Linux.{
  Inotify, Node, PendingRename, LinuxWatcher, remove_watched, remove_loop, remove_watched_prefix,
}
use go_gaze.Linux.Walking.{Files}
use go_gaze.Linux.Masks.{RawEvent}
use go_gaze.Linux.Handling.{Sent, expire, flush_loop, flush_pending}
use go_gaze.Linux.Reading.{parse_buffer, sent_after, then_handle, handle_all, read_buffer}
use go_gaze.Linux.Polling.{
  InotifyError, Answer, interrupted, timed_out, failed, filled, Moment, Round, errors_capacity,
  emit_error, on_failure, on_read, on_answer, round,
}
use go_gaze.Linux.Owned.{IsOwned}
use go_gaze.Linux.Running.{Handled, handled, handle-Handled, flush_loop-IsOwned}

abbrev pub is_failure : Answer → Bool
is_failure interrupted = false
is_failure timed_out = false
is_failure (failed e) = true
is_failure (filled buffer) = false

emit_error_bound :
    (e : InotifyError) (errors : List InotifyError)
    → length errors ≤ errors_capacity
    → length (emit_error e errors) ≤ errors_capacity
unfolding emit_error
emit_error_bound e errors h = ground (arith, length-append errors (e ∷ []))

module _ {K : Type 0} (inotify : Inotify K) where
  remove_loop-closed :
      (prefix : Bytes) (rest : Map Bytes Node) (w : LinuxWatcher K)
      → (remove_loop inotify prefix rest w).closed ≡ w.closed
  unfolding remove_loop remove_watched
  remove_loop-closed prefix [] w = refl
  remove_loop-closed prefix ((path, node) ∷ rest) w =
      remove_loop-closed prefix rest _
      ∙ if_keeps (λ (w' : LinuxWatcher K). w'.closed ≡ w.closed) (not (has_path_prefix path prefix))
          refl refl

  expire-closed :
      (cookie : ℕ) (rename : PendingRename) (w : LinuxWatcher K)
      → (expire inotify cookie rename w).closed ≡ w.closed
  unfolding remove_watched_prefix
  expire-closed cookie rename w =
      if_keeps (λ (w' : LinuxWatcher K). w'.closed ≡ w.closed) rename.is_dir
        (remove_loop-closed rename.path w.watched _) refl

  flush_loop-closed :
      (cutoff : ℕ) (rest : Map ℕ PendingRename) (w : LinuxWatcher K)
      → (flush_loop inotify cutoff rest w).0.closed ≡ w.closed
  unfolding flush_loop
  flush_loop-closed cutoff [] w = refl
  flush_loop-closed cutoff ((cookie, rename) ∷ rest) w =
      flush_loop-closed cutoff rest _
      ∙ if_keeps (λ (w' : LinuxWatcher K). w'.closed ≡ w.closed) (ltb cutoff rename.at) refl
          (expire-closed cookie rename w)

module _ {K : Type 0} where
  sent_after-Handled :
      (sent : List Event) (r : Option (Sent K)) → Handled r → Handled (sent_after sent r)
  sent_after-Handled sent _ (handled r h) = handled _ h

  then_handle-Handled :
      (r : Option (Sent K)) (f : LinuxWatcher K → Option (Sent K))
      → Handled r
      → ((w : LinuxWatcher K) → IsOwned w → Handled (f w))
      → Handled (then_handle r f)
  then_handle-Handled _ f (handled r h) k = sent_after-Handled r.1 (f r.0) (k r.0 h)

module _ {K : Type 0} (inotify : Inotify K) (files : Files) (cfg : BackendConfig) where
  handle_all-Handled :
      (clock : ℕ → ℕ) (n : ℕ) (raws : List RawEvent) (w : LinuxWatcher K)
      → IsOwned w
      → Handled (handle_all inotify files cfg clock n raws w)
  unfolding handle_all
  handle_all-Handled clock n [] w h = handled _ h
  handle_all-Handled clock n (raw ∷ more) w h =
      then_handle-Handled _ _ (handle-Handled inotify files cfg (clock n) raw w h)
        (λ w' h'. handle_all-Handled clock (suc n) more w' h')

  -- What a round does to the state, to the errors channel and to the loop.
  pub record IsRound (moment : Moment) (errors : List InotifyError) (w : LinuxWatcher K)
      (r : Option (Round K)) : Type 0 where
    pub last : Round K
    pub same : r ≡ some last
    pub owned : IsOwned last.state
    pub bounded : length errors ≤ errors_capacity → length last.errors ≤ errors_capacity
    pub ends : last.running ≡ not (w.closed && is_failure moment.answer)

  on_read-IsRound :
      (moment : Moment) (errors : List InotifyError) (w : LinuxWatcher K) (sent : List Event)
      (r : Option (Sent K))
      → is_failure moment.answer ≡ false
      → Handled r
      → IsRound moment errors w (on_read errors sent r)
  on_read-IsRound moment errors w sent _ e (handled r h) = record {
    last = _;
    same = refl;
    owned = h;
    bounded = λ b. b;
    ends = ground arith;
  }

  on_failure-IsRound :
      (moment : Moment) (e : InotifyError) (errors : List InotifyError) (w : LinuxWatcher K)
      (r : Sent K)
      → is_failure moment.answer ≡ true
      → r.0.closed ≡ w.closed
      → IsOwned r.0
      → IsRound moment errors w (some (on_failure e errors r))
  unfolding on_failure
  on_failure-IsRound moment e errors w r f same h =
      if_cases (λ (x : Round K). IsRound moment errors w (some x)) r.0.closed
        (λ c. record {
          last = _;
          same = refl;
          owned = h;
          bounded = λ b. b;
          ends = ground (arith, same);
        })
        (λ c. record {
          last = _;
          same = refl;
          owned = h;
          bounded = emit_error_bound e errors;
          ends = ground (arith, same);
        })

  on_answer-IsRound :
      (moment : Moment) (errors : List InotifyError) (w : LinuxWatcher K) (r : Sent K)
      (answer : Answer)
      → answer ≡ moment.answer
      → r.0.closed ≡ w.closed
      → IsOwned r.0
      → IsRound moment errors w (on_answer inotify files cfg moment.clock answer errors r)
  unfolding on_answer read_buffer
  on_answer-IsRound moment errors w r interrupted e same h = record {
    last = _;
    same = refl;
    owned = h;
    bounded = λ b. b;
    ends = ground (arith, ap is_failure e);
  }
  on_answer-IsRound moment errors w r timed_out e same h = record {
    last = _;
    same = refl;
    owned = h;
    bounded = λ b. b;
    ends = ground (arith, ap is_failure e);
  }
  on_answer-IsRound moment errors w r (failed f) e same h =
      on_failure-IsRound moment f errors w r (sym (ap is_failure e)) same h
  on_answer-IsRound moment errors w r (filled buffer) e same h =
      on_read-IsRound moment errors w r.1 _ (sym (ap is_failure e))
        (handle_all-Handled moment.clock 0 (parse_buffer buffer) r.0 h)

  pub round-IsRound :
      (moment : Moment) (errors : List InotifyError) (w : LinuxWatcher K)
      → IsOwned w
      → IsRound moment errors w (round inotify files cfg moment errors w)
  unfolding round flush_pending
  round-IsRound moment errors w h =
      on_answer-IsRound moment errors w _ moment.answer refl
        (flush_loop-closed inotify moment.cutoff w.pending w)
        (flush_loop-IsOwned inotify moment.cutoff w.pending w h)

  -- On maps that agree, a round of run's loop does not panic, whatever the system calls answer and the
  -- buffer holds. It leaves maps that agree and at most 64 errors if there were not more. It is the
  -- last one exactly when a system call has failed and the backend is closed.
  pub round_outcome :
      (moment : Moment) (errors : List InotifyError) (w : LinuxWatcher K)
      → IsOwned w
      → (r : Round K) × (round inotify files cfg moment errors w ≡ some r)
        × IsOwned r.state
        × (length errors ≤ errors_capacity → length r.errors ≤ errors_capacity)
        × (r.running ≡ not (w.closed && is_failure moment.answer))
  round_outcome moment errors w h =
      let r = round-IsRound moment errors w h in (r.last, r.same, r.owned, r.bounded, r.ends)
