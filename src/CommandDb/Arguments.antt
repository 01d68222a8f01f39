-- ===== src/CommandDb/Arguments.antt =====
-- pack_arguments of lib/semindex_command_db/command_db_writer.c and unpack_arguments of
-- lib/semindex_command_db/command_db_reader.c. An allocation does not fail.
pub mod RoundTrip
use semindex.Base.{
  ℕ, zero, suc, ◌+◌, ◌-◌, Bool, true, false, Option, none, some, List, [], ◌∷◌, ◌++◌, Text, ltb,
  ◌==◌, ◌^◌, if◌then◌else◌, length,
}

-- SIZE_MAX
abbrev pub size_max : ℕ
size_max = 2 ^ 64 - 1

-- The first loop of pack_arguments: `total`, or `none` where it does not fit.
unfoldable pub pack_size : ℕ → List Text → Option ℕ
pack_size total [] = some total
pack_size total (arg ∷ rest) =
    let len = length arg + 1 in
    let more = pack_size (total + len) rest in if ltb (size_max - total) len then none else more

-- The second loop: each argument with its NUL.
unfoldable pub pack : List Text → Text
pack [] = []
pack (arg ∷ rest) = arg ++ 0 ∷ pack rest

-- pack_arguments: the blob, and `*size`
unfoldable pub pack_arguments : List Text → Option (Text × ℕ)
unfolding pack_size pack
pack_arguments argv = elim (pack_size 0 argv) [ none ↦ none | some total ↦ some (pack argv, total) ]

-- `blob[size - 1] == '\0'`, of a blob that is not empty
unfoldable pub ends_in_nul : Text → Bool
ends_in_nul [] = false
ends_in_nul (c ∷ []) = c == 0
ends_in_nul (c ∷ d ∷ rest) = ends_in_nul (d ∷ rest)

-- The loop that counts `argc`
unfoldable pub count_nuls : Text → ℕ
count_nuls [] = 0
count_nuls (c ∷ rest) = let n = count_nuls rest in if c == 0 then suc n else n

-- The C string at a place, and what stands behind its NUL
unfoldable pub c_string : Text → Text × Text
c_string [] = ([], [])
c_string (c ∷ rest) =
    let (s, behind) = c_string rest in if c == 0 then ([], rest) else (c ∷ s, behind)

-- The loop that fills `argv`
unfoldable pub unpack : ℕ → Text → List Text
unfolding c_string
unpack zero blob = []
unpack (suc n) blob = let (s, behind) = c_string blob in s ∷ unpack n behind

-- unpack_arguments
unfoldable pub unpack_arguments : Text → Option (List Text)
unfolding ends_in_nul count_nuls unpack
unpack_arguments blob = if ends_in_nul blob then some (unpack (count_nuls blob) blob) else none
