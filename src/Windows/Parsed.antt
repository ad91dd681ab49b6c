-- ===== src/Windows/Parsed.antt =====
-- internal/backend/backend_windows.go: the loop over the buffer finds the entries that the kernel
-- wrote.
use go_gaze.Common.{
  ℕ, zero, suc, ◌+◌, ◌/◌, ◌%◌, ◌<◌, ◌≡◌, refl, sym, ◌∙◌, ap, ◌==◌, Bool, false, List, [], ◌∷◌, ◌++◌,
  arith, Bytes, nat_eq, ltb, length, drop, length-append, if◌then◌else◌,
}
use mathlib.Core.List.{append_assoc}
use go_gaze.Common.Words.{put_word, zeros, read-put, length-zeros, take_exact, drop_exact}
use go_gaze.Windows.Reading.{Info, header_size, read_units, parse, parse_buffer}

abbrev pub put_units : List ℕ → Bytes
put_units [] = []
put_units (u ∷ units) = u % 256 ∷ u / 256 ∷ put_units units

-- An entry; `next` is the distance to the one behind it, zero at the last one.
abbrev pub encode : ℕ → Info → Bytes → Bytes
encode next info rest =
    put_word next
      (put_word info.action (put_word (length (put_units info.name)) (put_units info.name ++ rest)))

-- The distance to the next entry, with so many bytes of padding.
abbrev pub step_of : Info → ℕ → ℕ
step_of info pad = header_size + length (put_units info.name) + pad

-- Entries with their padding, the last one, and what the buffer holds after it.
abbrev pub encode_all : List (Info × ℕ) → Info → Bytes → Bytes
encode_all [] last tail = encode 0 last tail
encode_all ((info, pad) ∷ more) last tail =
    encode (step_of info pad) info (zeros pad ++ encode_all more last tail)

abbrev pub IsUnits : List ℕ → Type 0
IsUnits [] = Unit
IsUnits (u ∷ units) = (u < 65536) × IsUnits units

-- The words fit into 32 bits, and the units of the name into 16.
pub record IsInfo (info : Info) (pad : ℕ) : Type 0 where
  pub action : info.action < 4294967296
  pub size : step_of info pad < 4294967296
  pub units : IsUnits info.name

abbrev pub AllInfos : List (Info × ℕ) → Type 0
AllInfos [] = Unit
AllInfos ((info, pad) ∷ more) = IsInfo info pad × AllInfos more

abbrev pub infos_of : List (Info × ℕ) → Info → List Info
infos_of [] last = last ∷ []
infos_of ((info, _) ∷ more) last = info ∷ infos_of more last

read-put_units : (units : List ℕ) → IsUnits units → read_units (put_units units) ≡ units
unfolding read_units
read-put_units [] h = refl
read-put_units (u ∷ units) h =
    ap (λ k. k ∷ read_units (put_units units)) (omega arith)
    ∙ ap (λ us. u ∷ us) (read-put_units units h.1)

encode_long :
    (next : ℕ) (info : Info) (rest : Bytes)
    → ltb (length (encode next info rest)) header_size ≡ false
encode_long next info rest = ground arith

name_fits :
    (info : Info) (rest : Bytes)
    → ltb (length (put_units info.name ++ rest)) (length (put_units info.name)) ≡ false
name_fits info rest = ground (arith, length-append (put_units info.name) rest)

-- One round of the loop.
parse-encode :
    (fuel next : ℕ) (info : Info) (pad : ℕ) (rest : Bytes)
    → IsInfo info pad
    → next < 4294967296
    → parse (suc fuel) (encode next info rest)
      ≡ info ∷ (if next == 0 then [] else parse fuel (drop next (encode next info rest)))
unfolding parse
parse-encode fuel next info pad rest h small =
    let name = put_units info.name in
    rw (
      read-put next (put_word info.action (put_word (length name) (name ++ rest))) small,
      read-put info.action (put_word (length name) (name ++ rest)) h.action,
      read-put (length name) (name ++ rest) (omega (arith, h.size)),
      take_exact (length name) name rest refl,
      read-put_units info.name h.units,
      encode_long next info rest,
      name_fits info rest,
    )

length-encode :
    (next : ℕ) (info : Info) (rest : Bytes)
    → length (encode next info rest) ≡ header_size + (length (put_units info.name) + length rest)
length-encode next info rest = omega (arith, length-append (put_units info.name) rest)

drop-encode :
    (next : ℕ) (info : Info) (pad : ℕ) (rest : Bytes)
    → drop (step_of info pad) (encode next info (zeros pad ++ rest)) ≡ rest
drop-encode next info pad rest =
    let split : encode next info (zeros pad) ++ rest ≡ encode next info (zeros pad ++ rest) =
      ap
        (λ bytes.
          put_word next (put_word info.action (put_word (length (put_units info.name)) bytes)))
        (append_assoc (put_units info.name) (zeros pad) rest) in
    ap (drop (step_of info pad)) (sym split)
    ∙ drop_exact (step_of info pad) (encode next info (zeros pad)) rest
        (omega (arith, length-encode next info (zeros pad), length-zeros pad))

step_on : (info : Info) (pad : ℕ) → (step_of info pad == 0) ≡ false
step_on info pad = ground arith

parse-encode_all :
    (fuel : ℕ) (entries : List (Info × ℕ)) (last : Info) (tail : Bytes)
    → AllInfos entries
    → IsInfo last 0
    → length entries < fuel
    → parse fuel (encode_all entries last tail) ≡ infos_of entries last
parse-encode_all zero entries last tail all h enough = ground arith
parse-encode_all (suc fuel) [] last tail all h enough =
    parse-encode fuel 0 last 0 tail h (omega arith)
parse-encode_all (suc fuel) ((info, pad) ∷ more) last tail all h enough =
    parse-encode fuel (step_of info pad) info pad (zeros pad ++ encode_all more last tail) all.0
      all.0.size
    ∙ ap
        (λ (stops : Bool).
          info
          ∷ (if stops
              then []
              else parse fuel (
                  drop (step_of info pad)
                    (encode (step_of info pad) info (zeros pad ++ encode_all more last tail)))))
        (step_on info pad)
    ∙ ap (λ rest. info ∷ parse fuel rest)
        (drop-encode (step_of info pad) info pad (encode_all more last tail))
    ∙ ap (λ infos. info ∷ infos)
        (parse-encode_all fuel more last tail all.1 h (omega (arith, enough)))

length-encode_all :
    (entries : List (Info × ℕ)) (last : Info) (tail : Bytes)
    → length entries < length (encode_all entries last tail)
length-encode_all [] last tail = omega (arith, length-encode 0 last tail)
length-encode_all ((info, pad) ∷ more) last tail = omega (
  arith,
  length-encode (step_of info pad) info (zeros pad ++ encode_all more last tail),
  length-append (zeros pad) (encode_all more last tail),
  length-encode_all more last tail,
)

-- In a buffer of entries that lead from one to the next, with any padding between them, the loop finds
-- each entry with its action and the units of its name, in their order, and stops behind the last
-- one, whatever follows it.
pub buffer_entries :
    (entries : List (Info × ℕ)) (last : Info) (tail : Bytes)
    → AllInfos entries
    → IsInfo last 0
    → parse_buffer (encode_all entries last tail) ≡ infos_of entries last
unfolding parse_buffer
buffer_entries entries last tail all h =
    parse-encode_all (length (encode_all entries last tail)) entries last tail all h
      (length-encode_all entries last tail)
