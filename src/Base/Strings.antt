-- ===== src/Base/Strings.antt =====
-- Go's `string` as the list of its bytes, and the FNV-1a hash that several programs define.
use Prim.Native.Nat.{ℕ, ◌*◌, ◌%◌, ◌^◌, ◌<◌, bit_xor}
use native.Mathlib.Omega.{arith}
use Prim.Native.Char.{code}
use Prim.Native.String.{String}
use mathlib.Core.List.{List, [], ◌∷◌}
use native.Mathlib.Decide.{ℕ_discrete}
use design_with_ts_go.Base.Maps.{Key}

abbrev pub GoString : Type 0
GoString = List ℕ

-- A literal in the source; all of them are ASCII.
abbrev pub str : String → GoString
str String.[] = []
str (String.◌∷◌ c s) = code c ∷ str s

unfoldable pub GoString-discrete : Discrete GoString
unfolding ℕ_discrete
GoString-discrete = hlevel ℕ_discrete

instance abbrev pub string_key : Key GoString
string_key = record { same = GoString-discrete }

-- `hash ^= uint32(value[i]); hash *= 16777619`, on 32 bits, for each byte from the seed on
unfoldable pub fnv1a_from : ℕ → GoString → ℕ
fnv1a_from hash [] = hash
fnv1a_from hash (byte ∷ value) = fnv1a_from (bit_xor hash byte * 16777619 % 2 ^ 32) value

pub fnv1a_from-lt : (hash : ℕ) (value : GoString) → hash < 2 ^ 32 → fnv1a_from hash value < 2 ^ 32
unfolding fnv1a_from
fnv1a_from-lt hash [] h = h
fnv1a_from-lt hash (byte ∷ value) h =
    fnv1a_from-lt (bit_xor hash byte * 16777619 % 2 ^ 32) value (omega arith)

-- FNV-1a from the usual offset: `hash32` and `checksum` of several programs
unfoldable pub fnv1a : GoString → ℕ
unfolding fnv1a_from
fnv1a value = fnv1a_from 2166136261 value
