-- ===== src/Filter/Base.antt =====
-- internal/filter/matcher.go: baseFast against the elements of the path.
use go_gaze.Common.{
  ℕ, zero, suc, ◌+◌, ◌≡◌, refl, sym, ◌∙◌, ap, ◌≢◌, true, false, ◌&&◌, List, [], ◌∷◌, ◌++◌, arith,
  Bytes, ◌==◌, nat_eq, bytes_eq, bytes_beq, bytes_beq_iff, Bool-cases, inl, inr, if◌then◌else◌,
  length, drop,
}
use mathlib.Core.List.{append_assoc, append-nil}
use native.Mathlib.Numerals.{add-one}
use go_gaze.FilePath.{separator, dot, last_index_byte}
use go_gaze.FilePath.Parent.{Avoids, split_last, last_index_byte-append, last_index_byte-Avoids}
use go_gaze.GoPath.{components, add_head}
use go_gaze.GoPath.Components.{components-IsSplit}
use go_gaze.Filter.{strip_separators, base_fast, after_last}
use go_gaze.Filter.Cleaning.{ends_in_separator, ends-append}

-- The last element that is not empty, else `found`.
last_named : Bytes → List Bytes → Bytes
last_named found [] = found
last_named found (w ∷ ws) = last_named (if w == [] then found else w) ws

-- The base name by elements: "." for the empty path, the root for one of separators only.
pub base_name : Bytes → Bytes
unfolding last_named
base_name path = if path == [] then dot ∷ [] else last_named (separator ∷ []) (components path)

slashes : ℕ → Bytes
slashes zero = []
slashes (suc n) = separator ∷ slashes n

-- What the loop of baseFast strips is separators, and none is left at the end.
record Stripped (path : Bytes) : Type 0 where
  count : ℕ
  same : path ≡ strip_separators path ++ slashes count
  ends : ends_in_separator (strip_separators path) ≡ false

strip-drops :
    (c : ℕ) (s : Bytes)
    → (strip_separators s == [] && c == separator) ≡ true
    → strip_separators (c ∷ s) ≡ []
unfolding strip_separators
strip-drops c s h = rw h refl

strip-keeps :
    (c : ℕ) (s : Bytes)
    → (strip_separators s == [] && c == separator) ≡ false
    → strip_separators (c ∷ s) ≡ c ∷ strip_separators s
unfolding strip_separators
strip-keeps c s h = rw h refl

ends-kept :
    (c : ℕ) (s : Bytes)
    → (s == [] && c == separator) ≡ false
    → ends_in_separator s ≡ false
    → ends_in_separator (c ∷ s) ≡ false
unfolding ends_in_separator bytes_beq
ends-kept c [] k h = k
ends-kept c (d ∷ s) k h = h

slash-stripped :
    (c : ℕ) (s t : Bytes) (n : ℕ)
    → (t == [] && c == separator) ≡ true
    → s ≡ t ++ slashes n
    → c ∷ s ≡ slashes (suc n)
unfolding slashes
slash-stripped c s t n h e = ground (arith, bytes_beq_iff t [])

ends_nil : ends_in_separator [] ≡ false
unfolding ends_in_separator
ends_nil = refl

strip_lem : (path : Bytes) → Stripped path
strip_lem [] =
    unfold strip_separators slashes ends_in_separator in
    record { count = 0; same = refl; ends = refl }
strip_lem (c ∷ s) =
    let h = strip_lem s in
    elim (Bool-cases (strip_separators s == [] && c == separator)) [
      | inl drops ↦ record {
        count = suc h.count;
        same =
            rw (strip-drops c s drops)
              (slash-stripped c s (strip_separators s) h.count drops h.same);
        ends = rw (strip-drops c s drops) ends_nil;
      }
      | inr keeps ↦ record {
        count = h.count;
        same = rw (strip-keeps c s keeps) (ap (λ l. c ∷ l) h.same);
        ends = rw (strip-keeps c s keeps) (ends-kept c (strip_separators s) keeps h.ends);
      }
    ]

components-cons : (s : Bytes) → components s ≢ []
components-cons s e = let h = components-IsSplit s in ground (arith, sym e ∙ h.cons_eq)

add_head-append :
    (c : ℕ) (ws vs : List Bytes) → ws ≢ [] → add_head c (ws ++ vs) ≡ add_head c ws ++ vs
add_head-append c [] vs ne = absurd (ne refl)
add_head-append c (w ∷ ws) vs ne = refl

components-append : (a b : Bytes) → components (a ++ separator ∷ b) ≡ components a ++ components b
unfolding components
components-append [] b = refl
components-append (c ∷ a) b = elim (Bool-cases (c == separator)) [
  | inl e ↦ rw (e, components-append a b) refl
  | inr e ↦
      rw (e, components-append a b)
        (add_head-append c (components a) (components b) (components-cons a))
]

components-Avoids : (w : Bytes) → Avoids separator w → components w ≡ w ∷ []
unfolding components
components-Avoids [] h = refl
components-Avoids (c ∷ w) h = rw (components-Avoids w h.1) (ground arith)

last_named-append :
    (found : Bytes) (ws vs : List Bytes)
    → last_named found (ws ++ vs) ≡ last_named (last_named found ws) vs
unfolding last_named
last_named-append found [] vs = refl
last_named-append found (w ∷ ws) vs = last_named-append (if w == [] then found else w) ws vs

last_named-slashes :
    (n : ℕ) (found w : Bytes)
    → Avoids separator w
    → last_named found (components (w ++ slashes n)) ≡ (if w == [] then found else w)
unfolding last_named slashes
last_named-slashes zero found w h =
    ap (λ l. last_named found (components l)) (append-nil w)
    ∙ ap (last_named found) (components-Avoids w h)
last_named-slashes (suc n) found w h =
    ap (last_named found) (
      components-append w (slashes n)
      ∙ ap (λ l. l ++ components (slashes n)) (components-Avoids w h))
    ∙ (last_named-slashes n (if w == [] then found else w) [] tt ∙ unfold bytes_beq in refl)

drop-past : (c : ℕ) (a b : Bytes) → drop (suc (length a)) (a ++ c ∷ b) ≡ b
drop-past c [] b = refl
drop-past c (x ∷ a) b = drop-past c a b

drop-after : (c : ℕ) (a b : Bytes) → drop (length a + 1) (a ++ c ∷ b) ≡ b
drop-after c a b = ap (λ n. drop n (a ++ c ∷ b)) (add-one (length a)) ∙ drop-past c a b

base_fast-cases :
    (c : ℕ) (s : Bytes)
    → base_fast (c ∷ s) ≡ (
        if strip_separators (c ∷ s) == []
        then separator ∷ []
        else after_last
            (strip_separators (c ∷ s))
            (last_index_byte (strip_separators (c ∷ s)) separator))
unfolding base_fast bytes_beq
base_fast-cases c s = refl

base_name-cons :
    (c : ℕ) (s : Bytes) → base_name (c ∷ s) ≡ last_named (separator ∷ []) (components (c ∷ s))
unfolding base_name bytes_beq
base_name-cons c s = refl

-- The base name of a path that ends in an element, for the two shapes of what is left of it.
last_named-element :
    (found a b : Bytes) (n : ℕ)
    → Avoids separator b
    → b ≢ []
    → last_named found (components ((a ++ separator ∷ b) ++ slashes n)) ≡ b
last_named-element found a b n h ne =
    ap (λ l. last_named found (components l)) (append_assoc a (separator ∷ b) (slashes n))
    ∙ (ap (last_named found) (components-append a (b ++ slashes n))
        ∙ (last_named-append found (components a) (components (b ++ slashes n))
            ∙ (last_named-slashes n (last_named found (components a)) b h
                ∙ ground (arith, bytes_beq_iff b []))))

base_after_last :
    (t : Bytes) (n : ℕ)
    → t ≢ []
    → ends_in_separator t ≡ false
    → after_last t (last_index_byte t separator)
      ≡ last_named (separator ∷ []) (components (t ++ slashes n))
base_after_last t n ne e = elim (split_last separator t) [
  | inl h ↦
      rw (last_index_byte-Avoids separator t h, last_named-slashes n (separator ∷ []) t h)
        (ground (arith, bytes_beq_iff t []))
  | inr (a, b, q, h) ↦
      let ends = ends-append a b in
      let not_empty : b ≢ [] = (λ z. ground (arith, q, (bytes_beq_iff b []).1 z)) in
      rw
        (
          q,
          last_index_byte-append separator a b h,
          drop-after separator a b,
          last_named-element (separator ∷ []) a b n h not_empty,
        )
        refl
]

base_stripped :
    (t : Bytes) (n : ℕ)
    → ends_in_separator t ≡ false
    → (if t == [] then separator ∷ [] else after_last t (last_index_byte t separator))
      ≡ last_named (separator ∷ []) (components (t ++ slashes n))
unfolding bytes_beq
base_stripped [] n e = sym (last_named-slashes n (separator ∷ []) [] tt)
base_stripped (c ∷ t) n e = base_after_last (c ∷ t) n (λ q. cc q) e

base_nil : base_fast [] ≡ base_name []
unfolding base_fast base_name bytes_beq
base_nil = refl

-- For every path, baseFast returns its last element that is not empty, the root for a path of
-- separators only, and "." for the empty path.
pub base_fast-eq-base_name : (path : Bytes) → base_fast path ≡ base_name path
base_fast-eq-base_name [] = base_nil
base_fast-eq-base_name (c ∷ s) =
    let h = strip_lem (c ∷ s) in
    base_fast-cases c s
    ∙ (base_stripped (strip_separators (c ∷ s)) h.count h.ends
        ∙ (ap (λ l. last_named (separator ∷ []) (components l)) (sym h.same)
            ∙ sym (base_name-cons c s)))
