-- ===== src/Memory/Examples.antt =====
-- Overlapping blocks and short texts, and the claims about them.
use splongle_os.Base.{ℕ, ◌%◌, ◌≡◌, ◌↔◌, inl, arith, true, some, List, [], ◌∷◌, get_or}
use splongle_os.Memory.{Bytes, memcpy, memset, memcmp, strlen, strcmp}
use splongle_os.Memory.Blocks.{memcpy_lem, memset_lem, Agree, memcmp_lem}
use splongle_os.Memory.Strings.{IsText, strlen_lem, strcmp_lem}

abbrev bytes : Bytes
bytes = λ a. a % 256

memcpy_lem_example : memcpy 10 12 6 bytes 15 ≡ 17
memcpy_lem_example = memcpy_lem 10 12 6 15 bytes (inl (omega arith))

memset_lem_example : memset 10 0x1FF 6 bytes 15 ≡ 0xFF
memset_lem_example = memset_lem 10 0x1FF 6 15 bytes

memcmp_lem_example : (memcmp 0 256 4 bytes ≡ 0) ↔ Agree 0 256 4 0 bytes
memcmp_lem_example = memcmp_lem 0 256 4 bytes

abbrev help : List ℕ
help = b'h' ∷ b'e' ∷ b'l' ∷ b'p' ∷ []

abbrev helper : List ℕ
helper = b'h' ∷ b'e' ∷ b'l' ∷ b'p' ∷ b'e' ∷ b'r' ∷ []

help-IsText : IsText (λ i. get_or help i 0) 0 help
help-IsText = omega arith

helper-IsText : IsText (λ i. get_or helper i 0) 0 helper
helper-IsText = omega arith

strlen_lem_example : strlen 5 (λ i. get_or help i 0) ≡ some 4
strlen_lem_example = strlen_lem 5 help (λ i. get_or help i 0) help-IsText (omega arith)

-- The texts differ, and the result is true.
strcmp_lem_example : strcmp 5 (λ i. get_or helper i 0) (λ i. get_or help i 0) ≡ some true
strcmp_lem_example =
    strcmp_lem 5 helper help (λ i. get_or helper i 0) (λ i. get_or help i 0) helper-IsText
      help-IsText (omega arith)
