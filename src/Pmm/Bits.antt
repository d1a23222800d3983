-- ===== src/Pmm/Bits.antt =====
-- One bit of the page bitmap: the macros BIT_SET, BIT_CLEAR and BIT_TEST.
use open_lib.Common.{
  ℕ, ◌-◌, ◌/◌, ◌%◌, ◌^◌, ◌<◌, bit_and, bit_or, ◌≡◌, refl, ◌&&◌, Bool, true, arith, ◌==◌, ==_iff,
  if◌then◌else◌, ltb, update, all_below, all_below_sound,
}

-- The bytes that `pmm_bitmap` points to.
abbrev pub Bitmap : Type 0
Bitmap = ℕ → ℕ

abbrev pub set_byte : ℕ → ℕ → ℕ
set_byte x k = bit_or x (2 ^ k)

-- `&= ~(1 << k)`, cut to the byte that it is stored in.
abbrev pub clear_byte : ℕ → ℕ → ℕ
clear_byte x k = bit_and x (255 - 2 ^ k)

abbrev pub test_byte : ℕ → ℕ → ℕ
test_byte x k = bit_and (x / 2 ^ k) 1

unfoldable pub bit_set : Bitmap → ℕ → Bitmap
bit_set b bit = update b (bit / 8) (set_byte (b (bit / 8)) (bit % 8))

unfoldable pub bit_clear : Bitmap → ℕ → Bitmap
bit_clear b bit = update b (bit / 8) (clear_byte (b (bit / 8)) (bit % 8))

unfoldable pub bit_test : Bitmap → ℕ → ℕ
bit_test b bit = test_byte (b (bit / 8)) (bit % 8)

abbrev pub IsBytes : Bitmap → Type 0
IsBytes b = (j : ℕ) → b j < 256

-- Every byte, every bit that is changed and every bit that is read.
abbrev every_case : (ℕ → ℕ → ℕ → Bool) → Bool
every_case p = all_below 256 (λ x. all_below 8 (λ k. all_below 8 (λ m. p x k m)))

every_case_sound :
    (p : ℕ → ℕ → ℕ → Bool) (x k m : ℕ)
    → every_case p ≡ true
    → x < 256
    → k < 8
    → m < 8
    → p x k m ≡ true
every_case_sound p x k m h hx hk hm =
    all_below_sound 8 _ m (all_below_sound 8 _ k (all_below_sound 256 _ x h hx) hk) hm

abbrev set_entry : ℕ → ℕ → ℕ → Bool
set_entry x k m = test_byte (set_byte x k) m == (if k == m then 1 else test_byte x m)

abbrev clear_entry : ℕ → ℕ → ℕ → Bool
clear_entry x k m = test_byte (clear_byte x k) m == (if k == m then 0 else test_byte x m)

abbrev range_entry : ℕ → ℕ → ℕ → Bool
range_entry x k m = ltb (set_byte x k) 256 && ltb (clear_byte x k) 256

abbrev full_entry : ℕ → ℕ → ℕ → Bool
full_entry x k m = (test_byte 255 k == 1) && ltb (test_byte x m) 2

tables :
    (every_case set_entry ≡ true)
    × (every_case clear_entry ≡ true)
    × (every_case range_entry ≡ true)
    × (every_case full_entry ≡ true)
unfolding all_below
tables = (refl, refl, refl, refl)

module _ (x k m : ℕ) (hx : x < 256) (hk : k < 8) (hm : m < 8) where
  test_byte-set_byte : test_byte (set_byte x k) m ≡ (if k == m then 1 else test_byte x m)
  test_byte-set_byte = (==_iff _ _).0 (every_case_sound set_entry x k m tables.0 hx hk hm)

  test_byte-clear_byte : test_byte (clear_byte x k) m ≡ (if k == m then 0 else test_byte x m)
  test_byte-clear_byte = (==_iff _ _).0 (every_case_sound clear_entry x k m tables.1 hx hk hm)

  byte_range : (set_byte x k < 256) × (clear_byte x k < 256)
  byte_range = ground (arith, every_case_sound range_entry x k m tables.2 hx hk hm)

  byte_full : (test_byte 255 k ≡ 1) × (test_byte x m < 2)
  byte_full = ground (arith, every_case_sound full_entry x k m tables.3 hx hk hm)

-- A write to one bit is seen at that bit and at no other.
pub bit_test-bit_set :
    (b : Bitmap) (i j : ℕ)
    → IsBytes b
    → bit_test (bit_set b i) j ≡ (if i == j then 1 else bit_test b j)
unfolding bit_test bit_set
bit_test-bit_set b i j h = ground (arith, h (i / 8), test_byte-set_byte (b (i / 8)) (i % 8) (j % 8))

pub bit_test-bit_clear :
    (b : Bitmap) (i j : ℕ)
    → IsBytes b
    → bit_test (bit_clear b i) j ≡ (if i == j then 0 else bit_test b j)
unfolding bit_test bit_clear
bit_test-bit_clear b i j h =
    ground (arith, h (i / 8), test_byte-clear_byte (b (i / 8)) (i % 8) (j % 8))

pub bit_set-IsBytes : (b : Bitmap) (i : ℕ) → IsBytes b → IsBytes (bit_set b i)
unfolding bit_set
bit_set-IsBytes b i h = λ j. ground (arith, h j, byte_range (b (i / 8)) (i % 8) 0 (h (i / 8)))

pub bit_clear-IsBytes : (b : Bitmap) (i : ℕ) → IsBytes b → IsBytes (bit_clear b i)
unfolding bit_clear
bit_clear-IsBytes b i h = λ j. ground (arith, h j, byte_range (b (i / 8)) (i % 8) 0 (h (i / 8)))

-- A bit reads as 0 or 1, and a byte 0xff has all its bits set.
pub bit_test-lt : (b : Bitmap) (i : ℕ) → IsBytes b → bit_test b i < 2
unfolding bit_test
bit_test-lt b i h = (byte_full (b (i / 8)) 0 (i % 8) (h (i / 8)) (omega arith) (omega arith)).1

pub bit_test_full : (b : Bitmap) (i : ℕ) → b (i / 8) ≡ 255 → bit_test b i ≡ 1
unfolding bit_test
bit_test_full b i e = rw e (byte_full 0 (i % 8) 0 (omega arith) (omega arith) (omega arith)).0
