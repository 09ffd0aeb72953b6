-- ===== src/Worker/Sketch.antt =====
-- apps/worker/src/distinct-sketch.ts: a count of distinct digests, exact while they are few.
pub mod Registers
pub mod Adding
pub mod Decoding
pub mod Merging
pub mod Starting
mod Tests
use app_health.Prelude.{
  ℕ, zero, suc, ◌+◌, ◌-◌, ◌*◌, ◌/◌, ◌%◌, ◌^◌, max, min, Bool, true, false, not, ◌&&◌, ◌||◌, List,
  [], ◌∷◌, ◌++◌, Option, none, some, ◌>>=◌, ltb, leb, ◌==◌, if◌then◌else◌, length, take, all, any,
}
use app_health.Js.Strings.Sorting.{sort}
use app_health.Js.Strings.{Text, is_digit, split, join, same_text}

abbrev pub default_precision : ℕ
default_precision = 12

abbrev pub sparse_limit : ℕ
sparse_limit = 256

-- `[a-f0-9]`
abbrev pub is_digest_unit : ℕ → Bool
is_digest_unit c = is_digit c || (leb b'a' c && leb c b'f')

-- `HASH_PATTERN`
unfoldable pub is_digest : Text → Bool
is_digest hash = (length hash == 64) && all is_digest_unit hash

abbrev pub replicate : ℕ → ℕ → List ℕ
replicate zero x = []
replicate (suc n) x = x ∷ replicate n x

unfoldable pub registers_for : ℕ → Option (List ℕ)
registers_for precision =
    if ltb precision 10 || ltb 16 precision then none else some (replicate (2 ^ precision) 0)

-- The text as a number in base 16, after `BigInt`.
unfoldable pub hex_value : ℕ → Text → ℕ
hex_value value [] = value
hex_value value (c ∷ cs) = hex_value (16 * value + (if leb c b'9' then c - 48 else c - 87)) cs

-- `bits`
unfoldable pub hash_bits : Text → ℕ
unfolding hex_value
hash_bits hash = hex_value 0 (take 16 hash)

unfoldable pub register_index : ℕ → Text → ℕ
unfolding hash_bits
register_index precision hash = hash_bits hash / 2 ^ (64 - precision)

-- The loop from the bit `precision + left - 1` down to the bit `precision`.
unfoldable pub count_rank : (precision remainder left rank : ℕ) → ℕ
count_rank precision remainder zero rank = rank
count_rank precision remainder (suc left) rank =
    let rest = count_rank precision remainder left (rank + 1) in
    if (remainder / 2 ^ (precision + left)) % 2 == 0 then rest else rank

unfoldable pub hash_rank : ℕ → Text → ℕ
unfolding hash_bits count_rank
hash_rank precision hash =
    let remaining_bits = 64 - precision in
    let remainder = (hash_bits hash * 2 ^ precision) % 2 ^ 64 in
    min (count_rank precision remainder remaining_bits 1) (remaining_bits + 1)

-- A write to a typed array out of its range does nothing.
unfoldable pub raise : List ℕ → ℕ → ℕ → List ℕ
raise [] index rank = []
raise (r ∷ rs) zero rank = max r rank ∷ rs
raise (r ∷ rs) (suc index) rank = r ∷ raise rs index rank

unfoldable pub apply_hash : List ℕ → ℕ → Text → Option (List ℕ)
apply_hash registers precision hash =
    if not (is_digest hash)
    then none
    else some (raise registers (register_index precision hash) (hash_rank precision hash))

-- A loop of `apply_hash` over a set.
unfoldable pub apply_all : List ℕ → ℕ → List Text → Option (List ℕ)
apply_all registers precision [] = some registers
apply_all registers precision (hash ∷ hashes) = do
  raised ← apply_hash registers precision hash
  apply_all raised precision hashes

abbrev pub contains : Text → List Text → Bool
contains hash = any (λ h. same_text hash h)

-- `Set.add`, with the set in the order of insertion
unfoldable pub add_to_set : List Text → Text → List Text
add_to_set set hash = if contains hash set then set else set ++ hash ∷ []

-- `new Set(hashes)`, onto what the set already has
unfoldable pub set_from : List Text → List Text → List Text
unfolding add_to_set
set_from set [] = set
set_from set (hash ∷ hashes) = set_from (add_to_set set hash) hashes

unfoldable pub sparse_decode : Text → Option (List Text)
sparse_decode [] = some []
sparse_decode (c ∷ cs) =
    let hashes = split b',' (c ∷ cs) in
    if ltb sparse_limit (length hashes) || any (λ hash. not (is_digest hash)) hashes
    then none
    else some (set_from [] hashes)

-- The bytes are those of the decoded base64.
unfoldable pub dense_decode : List ℕ → ℕ → Option (List ℕ)
dense_decode bytes precision = do
  registers ← registers_for precision
  if not (length bytes == length registers) || any (λ r. ltb (64 - precision + 1) r) bytes
      then none
      else some bytes

-- `registers` of a sketch, by its encoding: a text of digests, or bytes in base64.
pub data Encoding : Type 0 where
  sparse_registers : Text → Encoding
  dense_registers : List ℕ → Encoding

pub record SparseDistinctSketch : Type 0 where
  precision : ℕ
  registers : Encoding

pub record Accumulator : Type 0 where
  precision : ℕ
  sparse : Option (List Text)
  dense : Option (List ℕ)

-- The constructor.
unfoldable pub new_accumulator : ℕ → Option SparseDistinctSketch → Option Accumulator
new_accumulator precision none = do
  empty ← registers_for precision
  some (record { precision = precision; sparse = some []; dense = none })
new_accumulator precision (some initial) = do
  empty ← registers_for precision
  if not (initial.precision == precision) then none else elim initial.registers [
    | sparse_registers text ↦ sparse_decode text >>= λ set.
        some (record { precision = precision; sparse = some set; dense = none })
    | dense_registers bytes ↦ dense_decode bytes precision >>= λ registers.
        some (record { precision = precision; sparse = some []; dense = some registers })
  ]

-- What turns the digests into registers, in `addDigest` and in `merge`.
unfoldable pub to_dense : Accumulator → List Text → Option Accumulator
to_dense a hashes = do
  empty ← registers_for a.precision
  registers ← apply_all empty a.precision hashes
  some (record { precision = a.precision; sparse = none; dense = some registers })

unfoldable pub add_digest : Accumulator → Text → Option Accumulator
add_digest a hash = if not (is_digest hash) then none else elim a.sparse [
  | some set ↦
      let added = add_to_set set hash in
      if leb (length added) sparse_limit
      then some (record a { sparse = some added })
      else to_dense a added
  | none ↦ a.dense >>= λ registers.
      apply_hash registers a.precision hash >>= λ raised. some (record a { dense = some raised })
]

-- `addDigest` for one digest after the other.
unfoldable pub add_digests : Accumulator → List Text → Option Accumulator
add_digests a [] = some a
add_digests a (hash ∷ hashes) = do added ← add_digest a hash; add_digests added hashes

-- The larger register in each place of the incoming array.
unfoldable pub larger : List ℕ → List ℕ → List ℕ
larger [] incoming = []
larger (r ∷ rs) [] = r ∷ rs
larger (r ∷ rs) (i ∷ is) = max r i ∷ larger rs is

unfoldable pub merge : Accumulator → SparseDistinctSketch → Option Accumulator
merge a sketch = if not (sketch.precision == a.precision) then none else elim sketch.registers [
  | sparse_registers text ↦ sparse_decode text >>= λ hashes. add_digests a hashes
  | dense_registers bytes ↦ do
    incoming ← dense_decode bytes a.precision
    ready ← elim a.sparse [ some hashes ↦ to_dense a hashes | none ↦ some a ]
    registers ← ready.dense
    some (record ready { dense = some (larger registers incoming) })
]

-- An accumulator has digests or registers: without either the source would throw.
unfoldable pub snapshot : Accumulator → Option SparseDistinctSketch
snapshot a = elim a.sparse [
  | some set ↦
      some (record { precision = a.precision; registers = sparse_registers (join b',' (sort set)) })
  | none ↦ a.dense >>= λ registers.
      some (record { precision = a.precision; registers = dense_registers registers })
]
