-- ===== src/UrlEncoder/Table.antt =====
-- down_parse_client/utils/URLEncoder.cpp: the tables, and what a call leaves in the buffer.
use studytest.Base.{ℕ, ◌/◌, ◌%◌, ◌^◌, [], ◌∷◌, ◌++◌, Bytes, get_or, codes, replicate}

abbrev no_entries : Bytes
no_entries = replicate 16 0

abbrev row2 : Bytes
row2 =
    0x2b ∷ 0x21 ∷ 0x22 ∷ 0x23 ∷ 0x24 ∷ 0x25 ∷ 0x26 ∷ 0x27 ∷ 0x28 ∷ 0x29 ∷ 0x2a ∷ 0x2b ∷ 0x2c ∷ 0x2d
    ∷ 0x2e ∷ 0x2f ∷ []

abbrev row3 : Bytes
row3 =
    0x30 ∷ 0x31 ∷ 0x32 ∷ 0x33 ∷ 0x34 ∷ 0x35 ∷ 0x36 ∷ 0x37 ∷ 0x38 ∷ 0x39 ∷ 0x3a ∷ 0x3b ∷ 0x3c ∷ 0x3d
    ∷ 0x3e ∷ 0x3f ∷ []

abbrev row4 : Bytes
row4 =
    0x40 ∷ 0x41 ∷ 0x42 ∷ 0x43 ∷ 0x44 ∷ 0x45 ∷ 0x46 ∷ 0x47 ∷ 0x48 ∷ 0x49 ∷ 0x4a ∷ 0x4b ∷ 0x4c ∷ 0x4d
    ∷ 0x4e ∷ 0x4f ∷ []

abbrev row5 : Bytes
row5 =
    0x50 ∷ 0x51 ∷ 0x52 ∷ 0x53 ∷ 0x54 ∷ 0x55 ∷ 0x56 ∷ 0x57 ∷ 0x58 ∷ 0x59 ∷ 0x5a ∷ 0x5b ∷ 0x5c ∷ 0x5d
    ∷ 0x5e ∷ 0x5f ∷ []

abbrev row6 : Bytes
row6 =
    0 ∷ 0x61 ∷ 0x62 ∷ 0x63 ∷ 0x64 ∷ 0x65 ∷ 0x66 ∷ 0x67 ∷ 0x68 ∷ 0x69 ∷ 0x6a ∷ 0x6b ∷ 0x6c ∷ 0x6d
    ∷ 0x6e ∷ 0x6f ∷ []

abbrev row7 : Bytes
row7 =
    0x70 ∷ 0x71 ∷ 0x72 ∷ 0x73 ∷ 0x74 ∷ 0x75 ∷ 0x76 ∷ 0x77 ∷ 0x78 ∷ 0x79 ∷ 0x7a ∷ 0x7b ∷ 0x7c ∷ 0x7d
    ∷ 0x7e ∷ 0x7f ∷ []

-- sixteen rows of sixteen entries; no row has an entry but those from 0x20 to 0x7f
unfoldable pub bytemap : Bytes
bytemap =
    no_entries
    ++ (no_entries ++ (row2 ++ (row3 ++ (row4 ++ (row5 ++ (row6 ++ (row7 ++ replicate 128 0)))))))

abbrev pub hexch : Bytes
hexch = codes "0123456789ABCDEF"

-- `*pdest = '%'`, then the two digits of the byte
unfoldable pub escaped : ℕ → Bytes
escaped c = b'%' ∷ (get_or hexch (c / 2 ^ 4) 0 ∷ (get_or hexch (c % 16) 0 ∷ []))

-- What a call leaves: `untouched` returns 0 and writes nothing, `wrote t` returns the length of `t`
-- and leaves `t` and a NUL behind it in the buffer, `failed` returns -1.
pub data Reply : Type 0 where
  untouched : Reply
  wrote : Bytes → Reply
  failed : Reply
