-- ===== src/Windows/Ending.antt =====
-- internal/backend/backend_windows.go: the loop over the buffer ends.
use go_gaze.Common.{
  ℕ, zero, suc, ◌+◌, ◌≤◌, ◌<◌, ◌≡◌, ◌≢◌, refl, ap, ◌∙◌, Bool, true, false, [], ◌∷◌, arith, Bytes,
  ◌==◌, nat_eq, ltb, length, drop, take, length-drop-le, if◌then◌else◌,
}
use go_gaze.Common.Words.{read_word}
use go_gaze.Windows.Reading.{header_size, read_units, parse, parse_buffer}

if_same :
    {A : Type 0} (b : Bool) (x : A) {y z : A}
    → (b ≡ false → y ≡ z)
    → (if b then x else y) ≡ (if b then x else z)
if_same true x e = refl
if_same false x e = e refl

length-drop :
    (n : ℕ) (bytes : Bytes) → n ≢ 0 → length bytes ≢ 0 → length (drop n bytes) < length bytes
length-drop zero bytes h k = absurd (h refl)
length-drop (suc n) [] h k = absurd (k refl)
length-drop (suc n) (b ∷ bytes) h k = omega (arith, length-drop-le n bytes)

parse_less :
    (fuel : ℕ) (rest : Bytes)
    → ((shorter : Bytes) → length shorter ≤ fuel → parse (suc fuel) shorter ≡ parse fuel shorter)
    → length rest ≤ suc fuel
    → ltb (length rest) header_size ≡ false
    → (read_word rest == 0) ≡ false
    → parse (suc fuel) (drop (read_word rest) rest) ≡ parse fuel (drop (read_word rest) rest)
parse_less fuel rest same h long goes = same (drop (read_word rest) rest) (
    omega
      (arith, h, length-drop (read_word rest) rest (ground (arith, goes)) (ground (arith, long))))

parse_more :
    (fuel : ℕ) (rest : Bytes) → length rest ≤ fuel → parse (suc fuel) rest ≡ parse fuel rest
unfolding parse
parse_more zero rest h = ground arith
parse_more (suc fuel) rest h = if_same (ltb (length rest) header_size) [] (λ long.
    if_same (ltb (length (drop header_size rest)) (read_word (drop 8 rest))) [] (λ fits.
      ap
        (λ infos.
          record {
            action = read_word (drop 4 rest);
            name = read_units (take (read_word (drop 8 rest)) (drop header_size rest));
          }
          ∷ infos)
        (if_same (read_word rest == 0) []
          (λ goes. parse_less fuel rest (parse_more fuel) h long goes))))

-- The loop over the buffer ends: with any more rounds than the buffer has bytes, it handles the same
-- entries, whatever the buffer holds.
pub parse_enough :
    (extra : ℕ) (buffer : Bytes) → parse (extra + length buffer) buffer ≡ parse_buffer buffer
unfolding parse_buffer
parse_enough zero buffer = ap (λ fuel. parse fuel buffer) (omega arith)
parse_enough (suc extra) buffer =
    ap (λ fuel. parse fuel buffer) {y = suc (extra + length buffer)} (omega arith)
    ∙ parse_more (extra + length buffer) buffer (omega arith)
    ∙ parse_enough extra buffer
