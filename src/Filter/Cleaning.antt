-- ===== src/Filter/Cleaning.antt =====
-- internal/filter/matcher.go: cleanFast against filepath.Clean.
use go_gaze.Common.{
  ◌≡◌, refl, sym, ◌∙◌, ap, subst, ◌≢◌, Bool, true, false, ◌&&◌, ◌||◌, List, [], ◌∷◌, ◌++◌, arith,
  Bytes, ◌==◌, nat_eq, bytes_eq, bytes_beq, bytes_beq_iff, Bool-cases, inl, inr,
}
use go_gaze.FilePath.{separator, dot}
use go_gaze.FilePath.Parent.{Avoids}
use go_gaze.GoPath.{components, join_components, head_is, clean}
use go_gaze.GoPath.Components.{
  AllAvoid, IsSplit, components-IsSplit, IsKept, AllKept, clean-relative, clean-rooted,
}
use go_gaze.Filter.{needs_clean, clean_fast}

-- The element is ".", or begins with "..".
is_dots : Bytes → Bool
is_dots [] = false
is_dots (c ∷ []) = c == dot
is_dots (c ∷ d ∷ w) = c == dot && d == dot

needs_clean-inside :
    (w rest : Bytes)
    → Avoids separator w
    → needs_clean false (w ++ separator ∷ rest) ≡ (head_is rest separator || needs_clean true rest)
unfolding needs_clean
needs_clean-inside [] rest h = refl
needs_clean-inside (c ∷ w) rest h = ground (arith, needs_clean-inside w rest h.1)

needs_clean-inside_end : (w : Bytes) → Avoids separator w → needs_clean false w ≡ false
unfolding needs_clean
needs_clean-inside_end [] h = refl
needs_clean-inside_end (c ∷ w) h = ground (arith, needs_clean-inside_end w h.1)

needs_clean-element :
    (w rest : Bytes)
    → Avoids separator w
    → needs_clean true (w ++ separator ∷ rest)
      ≡ (is_dots w || (head_is rest separator || needs_clean true rest))
unfolding needs_clean is_dots bytes_beq
needs_clean-element [] rest h = refl
needs_clean-element (c ∷ []) rest h = ground (arith, needs_clean-inside [] rest tt)
needs_clean-element (c ∷ d ∷ w) rest h = ground (arith, needs_clean-inside (d ∷ w) rest h.1)

needs_clean-last : (w : Bytes) → Avoids separator w → needs_clean true w ≡ is_dots w
unfolding needs_clean is_dots bytes_beq
needs_clean-last [] h = refl
needs_clean-last (c ∷ []) h = ground arith
needs_clean-last (c ∷ d ∷ w) h = ground (arith, needs_clean-inside_end (d ∷ w) h.1)

-- The last byte is a separator.
unfoldable pub ends_in_separator : Bytes → Bool
ends_in_separator [] = false
ends_in_separator (c ∷ []) = c == separator
ends_in_separator (c ∷ d ∷ s) = ends_in_separator (d ∷ s)

pub ends-append :
    (w rest : Bytes)
    → ends_in_separator (w ++ separator ∷ rest) ≡ (rest == [] || ends_in_separator rest)
unfolding ends_in_separator bytes_beq
ends-append [] [] = refl
ends-append [] (d ∷ rest) = refl
ends-append (c ∷ []) rest = ends-append [] rest
ends-append (c ∷ d ∷ w) rest = ends-append (d ∷ w) rest

is_dots-IsKept : (w : Bytes) → w ≢ [] → is_dots w ≡ false → IsKept w
unfolding is_dots
is_dots-IsKept w ne h = (ne, (λ e. ground (arith, e)), (λ e. ground (arith, e)))

-- A path with nothing to clean has only elements that Clean keeps.
all_kept :
    (w : Bytes) (ws : List Bytes)
    → AllAvoid (w ∷ ws)
    → needs_clean true (join_components (w ∷ ws)) ≡ false
    → head_is (join_components (w ∷ ws)) separator ≡ false
    → ends_in_separator (join_components (w ∷ ws)) ≡ false
    → join_components (w ∷ ws) ≢ []
    → AllKept (w ∷ ws)
unfolding join_components
all_kept w [] a n h e ne = (is_dots-IsKept w ne (sym (needs_clean-last w a.0) ∙ n), tt)
all_kept w (v ∷ vs) a n h e ne =
    let r = join_components (v ∷ vs) in
    let parts = needs_clean-element w r a.0 in
    let ends = ends-append w r in
    let not_empty : w ≢ [] = (λ q. ground (arith, q)) in
    (
      is_dots-IsKept w not_empty (ground arith),
      all_kept v vs a.1 (ground arith) (ground arith) (ground arith)
          (λ q. ground (arith, (bytes_beq_iff r []).1 q)),
    )

rooted_components :
    (s w : Bytes) (ws : List Bytes)
    → components s ≡ w ∷ ws
    → components (separator ∷ s) ≡ [] ∷ w ∷ ws
unfolding components
rooted_components s w ws e = ap (λ l. [] ∷ l) e

kept_elements :
    (s : Bytes) (h : IsSplit (components s) s)
    → needs_clean true s ≡ false
    → head_is s separator ≡ false
    → ends_in_separator s ≡ false
    → s ≢ []
    → AllKept (h.first ∷ h.more)
kept_elements s h n start e ne =
    all_kept h.first h.more h.avoid (rw h.join_eq n) (rw h.join_eq start) (rw h.join_eq e)
      (rw h.join_eq ne)

needs_clean-root :
    (s : Bytes) → needs_clean true (separator ∷ s) ≡ (head_is s separator || needs_clean true s)
unfolding needs_clean
needs_clean-root s = refl

clean-kept_root :
    (s : Bytes)
    → ends_in_separator (separator ∷ s) ≡ false
    → needs_clean true (separator ∷ s) ≡ false
    → clean (separator ∷ s) ≡ separator ∷ s
clean-kept_root s e n =
    let h = components-IsSplit s in
    let ends = ends-append [] s in
    let parts = needs_clean-root s in
    let kept =
      kept_elements s h (ground arith) (ground arith) (ground arith)
        (λ q. ground (arith, (bytes_beq_iff s []).1 q)) in
    clean-rooted s (h.first ∷ h.more) (rooted_components s h.first h.more h.cons_eq) h.join_eq kept

-- A path with nothing to clean, and no separator at its end, is clean.
pub clean-kept :
    (path : Bytes)
    → path ≢ []
    → ends_in_separator path ≡ false
    → needs_clean true path ≡ false
    → clean path ≡ path
clean-kept [] ne e n = absurd (ne refl)
clean-kept (c ∷ s) ne e n = elim (Bool-cases (c == separator)) [
  | inl rooted ↦
      let same : c ≡ separator = ground arith in
      subst (λ b. clean (b ∷ s) ≡ b ∷ s) (sym same)
        (clean-kept_root s (rw (← same) e) (rw (← same) n))
  | inr relative ↦
      let h = components-IsSplit (c ∷ s) in
      clean-relative c s (h.first ∷ h.more) h.cons_eq h.join_eq
        (kept_elements (c ∷ s) h n relative e ne) relative
]

-- On a path that does not end in a separator, cleanFast returns what filepath.Clean returns.
pub clean_fast-eq-clean :
    (path : Bytes) → ends_in_separator path ≡ false → clean_fast path ≡ clean path
unfolding clean_fast
clean_fast-eq-clean [] e = refl
clean_fast-eq-clean (c ∷ s) e = ground (arith, clean-kept (c ∷ s))
