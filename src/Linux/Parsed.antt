-- ===== src/Linux/Parsed.antt =====
-- internal/backend/backend_linux.go: the loop over the buffer finds the events that the kernel wrote.
use go_gaze.Common.{
  ℕ, zero, suc, ◌+◌, ◌≤◌, ◌<◌, ◌≡◌, ◌≢◌, refl, ◌∙◌, ap, false, List, [], ◌∷◌, ◌++◌, ◌⊎◌, arith,
  Bytes, nat_eq, ltb, length, drop, length-append,
}
use go_gaze.Common.Words.{
  read_word, put_word, zeros, read-put, length-zeros, take_exact, drop_exact,
}
use go_gaze.Linux.Masks.{RawEvent}
use go_gaze.Linux.Reading.{event_size, trim_null, parse, parse_buffer}

-- An event as the kernel writes it: the name is padded by some NUL bytes.
abbrev pub encode : RawEvent → ℕ → Bytes → Bytes
encode raw pad rest = put_word raw.wd (
    put_word raw.mask
      (put_word raw.cookie (put_word (length raw.name + pad) ((raw.name ++ zeros pad) ++ rest))))

-- Whole events, and what the buffer holds after them.
abbrev pub encode_all : List (RawEvent × ℕ) → Bytes → Bytes
encode_all [] tail = tail
encode_all ((raw, pad) ∷ more) tail = encode raw pad (encode_all more tail)

-- No event, or one that is cut off.
abbrev pub IsCut : Bytes → Type 0
IsCut tail = (length tail < event_size) ⊎ (length (drop event_size tail) < read_word (drop 12 tail))

abbrev pub NoNull : Bytes → Type 0
NoNull [] = Unit
NoNull (b ∷ bytes) = (b ≢ 0) × NoNull bytes

-- The words fit into 32 bits, and the name has no NUL byte.
pub record IsRaw (raw : RawEvent) (pad : ℕ) : Type 0 where
  pub wd : raw.wd < 4294967296
  pub mask : raw.mask < 4294967296
  pub cookie : raw.cookie < 4294967296
  pub size : length raw.name + pad < 4294967296
  pub name : NoNull raw.name

abbrev pub AllRaw : List (RawEvent × ℕ) → Type 0
AllRaw [] = Unit
AllRaw ((raw, pad) ∷ more) = IsRaw raw pad × AllRaw more

abbrev pub events_of : List (RawEvent × ℕ) → List RawEvent
events_of [] = []
events_of ((raw, _) ∷ more) = raw ∷ events_of more

trim-zeros : (n : ℕ) → trim_null (zeros n) ≡ []
unfolding trim_null
trim-zeros zero = refl
trim-zeros (suc n) = refl

trim-append : (name : Bytes) (n : ℕ) → NoNull name → trim_null (name ++ zeros n) ≡ name
unfolding trim_null
trim-append [] n h = trim-zeros n
trim-append (b ∷ name) n h = ground (arith, trim-append name n h.1)

length-name : (raw : RawEvent) (pad : ℕ) → length (raw.name ++ zeros pad) ≡ length raw.name + pad
length-name raw pad = omega (arith, length-append raw.name (zeros pad), length-zeros pad)

encode_long :
    (raw : RawEvent) (pad : ℕ) (rest : Bytes)
    → ltb (length (encode raw pad rest)) event_size ≡ false
encode_long raw pad rest = ground arith

name_fits :
    (raw : RawEvent) (pad : ℕ) (rest : Bytes)
    → ltb (length ((raw.name ++ zeros pad) ++ rest)) (length raw.name + pad) ≡ false
name_fits raw pad rest =
    ground (arith, length-append (raw.name ++ zeros pad) rest, length-name raw pad)

parse-encode :
    (fuel : ℕ) (raw : RawEvent) (pad : ℕ) (rest : Bytes)
    → IsRaw raw pad
    → parse (suc fuel) (encode raw pad rest) ≡ raw ∷ parse fuel rest
unfolding parse
parse-encode fuel raw pad rest h =
    let body = (raw.name ++ zeros pad) ++ rest in
    let size = length raw.name + pad in
    rw (
      read-put raw.wd (put_word raw.mask (put_word raw.cookie (put_word size body))) h.wd,
      read-put raw.mask (put_word raw.cookie (put_word size body)) h.mask,
      read-put raw.cookie (put_word size body) h.cookie,
      read-put size body h.size,
      take_exact size (raw.name ++ zeros pad) rest (length-name raw pad),
      drop_exact size (raw.name ++ zeros pad) rest (length-name raw pad),
      trim-append raw.name pad h.name,
      encode_long raw pad rest,
      name_fits raw pad rest,
    )

parse_cut : (fuel : ℕ) (tail : Bytes) → IsCut tail → parse fuel tail ≡ []
unfolding parse
parse_cut zero tail cut = refl
parse_cut (suc fuel) tail cut = ground (arith, cut)

-- With fuel for each event, the loop gives the events.
parse-encode_all :
    (fuel : ℕ) (events : List (RawEvent × ℕ)) (tail : Bytes)
    → AllRaw events
    → IsCut tail
    → length events ≤ fuel
    → parse fuel (encode_all events tail) ≡ events_of events
parse-encode_all fuel [] tail all cut h = parse_cut fuel tail cut
parse-encode_all zero ((raw, pad) ∷ more) tail all cut h = ground arith
parse-encode_all (suc fuel) ((raw, pad) ∷ more) tail all cut h =
    parse-encode fuel raw pad (encode_all more tail) all.0
    ∙ ap (λ rest. raw ∷ rest) (parse-encode_all fuel more tail all.1 cut (omega (arith, h)))

length-encode :
    (raw : RawEvent) (pad : ℕ) (rest : Bytes) → length rest + 16 ≤ length (encode raw pad rest)
length-encode raw pad rest = omega (arith, length-append (raw.name ++ zeros pad) rest)

length-encode_all :
    (events : List (RawEvent × ℕ)) (tail : Bytes) → length events ≤ length (encode_all events tail)
length-encode_all [] tail = omega arith
length-encode_all ((raw, pad) ∷ more) tail =
    omega (arith, length-encode raw pad (encode_all more tail), length-encode_all more tail)

-- In a buffer of whole events, however each name is padded with NUL bytes, after which at most a part
-- of an event stands, the loop finds each of the whole events with its words and its name without
-- the padding, in their order, and nothing else.
pub parse_buffer-encode_all :
    (events : List (RawEvent × ℕ)) (tail : Bytes)
    → AllRaw events
    → IsCut tail
    → parse_buffer (encode_all events tail) ≡ events_of events
unfolding parse_buffer
parse_buffer-encode_all events tail all cut =
    parse-encode_all (length (encode_all events tail)) events tail all cut
      (length-encode_all events tail)
