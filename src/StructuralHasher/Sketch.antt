-- ===== src/StructuralHasher/Sketch.antt =====
-- `fnv1a`, `minHash` and `jaccard` of structural_hasher.go.
use finops_proxy.Prelude.{
  ℕ, zero, suc, ◌+◌, ◌*◌, ◌%◌, ◌^◌, ◌-◌, ◌≡◌, refl, List, [], ◌∷◌, length, ltb, ◌==◌, if◌then◌else◌,
  Bytes, arith,
}
use Prim.Native.Nat.{bit_xor}

abbrev pub min_hash_k : ℕ
min_hash_k = 64

abbrev pub shingle_size : ℕ
shingle_size = 3

abbrev pub max_shingles : ℕ
max_shingles = 256

-- the slots `v` of a signature
abbrev pub Signature : Type 0
Signature = List ℕ

-- `h ^= c; h *= fnv1aPrime` for each byte
unfoldable pub fnv1a_from : ℕ → Bytes → ℕ
fnv1a_from h [] = h
fnv1a_from h (c ∷ s) = fnv1a_from (bit_xor h c * 1_099_511_628_211 % 2 ^ 64) s

unfoldable pub fnv1a : Bytes → ℕ
unfolding fnv1a_from
fnv1a s = fnv1a_from 14_695_981_039_346_656_037 s

-- the inner loop on the slots from `k` on
unfoldable pub project : ℕ → ℕ → Signature → Signature
project h k [] = []
project h k (v ∷ sig) =
    let hi = bit_xor h ((k + 1) * 0x9E3779B97F4A7C15 % 2 ^ 64) in
    (if ltb hi v then hi else v) ∷ project h (k + 1) sig

-- the outer loop, with the shingles that may still be counted
unfoldable pub shingles_from : ℕ → Bytes → Signature → Signature
unfolding fnv1a project
shingles_from zero form sig = sig
shingles_from (suc n) [] sig = sig
shingles_from (suc n) (a ∷ []) sig = sig
shingles_from (suc n) (a ∷ b ∷ []) sig = sig
shingles_from (suc n) (a ∷ b ∷ c ∷ s) sig =
    shingles_from n (b ∷ c ∷ s) (project (fnv1a (a ∷ b ∷ c ∷ [])) 0 sig)

-- `k` slots that hold the largest uint64
unfoldable pub full_slots : ℕ → Signature
full_slots zero = []
full_slots (suc k) = (2 ^ 64 - 1) ∷ full_slots k

unfoldable pub min_hash : Bytes → Signature
unfolding shingles_from full_slots
min_hash form = shingles_from max_shingles form (full_slots min_hash_k)

-- the slots that agree: `match` in `jaccard`
unfoldable pub agreeing : Signature → Signature → ℕ
agreeing [] bs = 0
agreeing (a ∷ as') [] = 0
agreeing (a ∷ as') (b ∷ bs) = let rest = agreeing as' bs in if a == b then rest + 1 else rest

agreeing_self : (sig : Signature) → agreeing sig sig ≡ length sig
unfolding agreeing
agreeing_self [] = refl
agreeing_self (a ∷ sig) = ground (arith, agreeing_self sig)

length-project : (h k : ℕ) (sig : Signature) → length (project h k sig) ≡ length sig
unfolding project
length-project h k [] = refl
length-project h k (v ∷ sig) = ground (arith, length-project h (k + 1) sig)

length-shingles_from :
    (n : ℕ) (form : Bytes) (sig : Signature) → length (shingles_from n form sig) ≡ length sig
unfolding shingles_from
length-shingles_from zero form sig = refl
length-shingles_from (suc n) [] sig = refl
length-shingles_from (suc n) (a ∷ []) sig = refl
length-shingles_from (suc n) (a ∷ b ∷ []) sig = refl
length-shingles_from (suc n) (a ∷ b ∷ c ∷ s) sig =
    let slots = project (fnv1a (a ∷ b ∷ c ∷ [])) 0 sig in
    omega (
      arith,
      length-shingles_from n (b ∷ c ∷ s) slots,
      length-project (fnv1a (a ∷ b ∷ c ∷ [])) 0 sig,
    )

length-full_slots : (k : ℕ) → length (full_slots k) ≡ k
unfolding full_slots
length-full_slots zero = refl
length-full_slots (suc k) = omega (arith, length-full_slots k)

-- Two equal forms agree in all 64 slots.
pub agreeing-min_hash : (form : Bytes) → agreeing (min_hash form) (min_hash form) ≡ min_hash_k
unfolding min_hash
agreeing-min_hash form = omega (
  arith,
  agreeing_self (min_hash form),
  length-shingles_from max_shingles form (full_slots min_hash_k),
  length-full_slots min_hash_k,
)
