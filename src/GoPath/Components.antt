-- ===== src/GoPath/Components.antt =====
-- A path is the list of its elements, none of which holds a separator; Clean keeps a path whose
-- elements are all kept.
use mathlib.Core.List.{reverse, append_assoc, append-nil, reverse-append}
use go_gaze.Common.{
  ℕ, ◌≡◌, refl, sym, ◌∙◌, ap, ◌≢◌, Bool, true, false, List, [], ◌∷◌, ◌++◌, arith, Bytes, ◌==◌,
  nat_eq, bytes_eq, bytes_beq, bytes_beq_iff, Bool-cases, inl, inr,
}
use go_gaze.FilePath.{separator, dot}
use go_gaze.FilePath.Parent.{Avoids}
use go_gaze.GoPath.{
  components, join_components, add_head, dot_dot, clean, clean_element, clean_elements, assemble,
}

abbrev pub AllAvoid : List Bytes → Type 0
AllAvoid [] = Unit
AllAvoid (w ∷ ws) = Avoids separator w × AllAvoid ws

-- The elements of a path: not empty, with no separator in them, and giving the path back.
pub record IsSplit (ws : List Bytes) (s : Bytes) : Type 0 where
  pub first : Bytes
  pub more : List Bytes
  pub cons_eq : ws ≡ first ∷ more
  pub avoid : AllAvoid (first ∷ more)
  pub join_eq : join_components (first ∷ more) ≡ s

join-add_head :
    (c : ℕ) (w : Bytes) (ws : List Bytes)
    → join_components ((c ∷ w) ∷ ws) ≡ c ∷ join_components (w ∷ ws)
unfolding join_components
join-add_head c w [] = refl
join-add_head c w (v ∷ ws) = refl

join-cons :
    (w : Bytes) (ws : List Bytes)
    → join_components ([] ∷ w ∷ ws) ≡ separator ∷ join_components (w ∷ ws)
unfolding join_components
join-cons w ws = refl

pub components-IsSplit : (s : Bytes) → IsSplit (components s) s
unfolding components
components-IsSplit [] = record {
  first = [];
  more = [];
  cons_eq = refl;
  avoid = (tt, tt);
  join_eq = unfold join_components in refl;
}
components-IsSplit (c ∷ s) =
    let h = components-IsSplit s in
    elim (Bool-cases (c == separator)) [
      | inl e ↦ record {
        first = [];
        more = h.first ∷ h.more;
        cons_eq = rw (e, components) (ap (λ l. [] ∷ l) h.cons_eq);
        avoid = (tt, h.avoid);
        join_eq = join-cons h.first h.more ∙ ground (arith, h.join_eq);
      }
      | inr e ↦ record {
        first = c ∷ h.first;
        more = h.more;
        cons_eq = rw (e, components) (ap (add_head c) h.cons_eq);
        avoid = ((ground arith, h.avoid.0), h.avoid.1);
        join_eq = join-add_head c h.first h.more ∙ ap (λ l. c ∷ l) h.join_eq;
      }
    ]

-- Elements that Clean keeps.
abbrev pub IsKept : Bytes → Type 0
IsKept w = (w ≢ []) × (w ≢ dot ∷ []) × (w ≢ dot_dot)

abbrev pub AllKept : List Bytes → Type 0
AllKept [] = Unit
AllKept (w ∷ ws) = IsKept w × AllKept ws

clean_element-kept :
    (rooted : Bool) (stack : List Bytes) (w : Bytes)
    → IsKept w
    → clean_element rooted stack w ≡ w ∷ stack
unfolding clean_element
clean_element-kept rooted stack w k =
    ground (
      arith,
      bytes_beq_iff w [],
      bytes_beq_iff w (dot ∷ []),
      bytes_beq_iff w dot_dot,
      k.0,
      k.1,
      k.2,
    )

pub clean_elements-kept :
    (rooted : Bool) (stack ws : List Bytes)
    → AllKept ws
    → clean_elements rooted stack ws ≡ reverse stack ++ ws
unfolding clean_elements
clean_elements-kept rooted stack [] k = sym (append-nil _)
clean_elements-kept rooted stack (w ∷ ws) k =
    ap (λ t. clean_elements rooted t ws) (clean_element-kept rooted stack w k.0)
    ∙ (clean_elements-kept rooted (w ∷ stack) ws k.1
        ∙ (ap (λ l. l ++ ws) (reverse-append (w ∷ []) stack)
            ∙ append_assoc (reverse stack) (w ∷ []) ws))

clean-cons :
    (c : ℕ) (s : Bytes)
    → clean (c ∷ s)
      ≡ assemble
          (c == separator)
          (join_components (clean_elements (c == separator) [] (components (c ∷ s))))
unfolding clean bytes_beq
clean-cons c s = refl

clean_elements-empty :
    (rooted : Bool) (ws : List Bytes)
    → clean_elements rooted [] ([] ∷ ws) ≡ clean_elements rooted [] ws
unfolding clean_elements bytes_beq
clean_elements-empty rooted ws = refl

-- Clean returns a path whose elements it keeps, whether it starts at the root or not.
pub clean-relative :
    (c : ℕ) (s : Bytes) (ws : List Bytes)
    → components (c ∷ s) ≡ ws
    → join_components ws ≡ c ∷ s
    → AllKept ws
    → (c == separator) ≡ false
    → clean (c ∷ s) ≡ c ∷ s
clean-relative c s ws e j k h =
    clean-cons c s ∙ rw (h, e, clean_elements-kept false [] ws k, j) refl

pub clean-rooted :
    (s : Bytes) (ws : List Bytes)
    → components (separator ∷ s) ≡ [] ∷ ws
    → join_components ws ≡ s
    → AllKept ws
    → clean (separator ∷ s) ≡ separator ∷ s
clean-rooted s ws e j k =
    clean-cons separator s ∙ rw (e, clean_elements-empty, clean_elements-kept true [] ws k, j) refl
