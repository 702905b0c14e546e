-- ===== src/Calldata/Erc.antt =====
-- The calldata that the token commands build (internal/erc/erc.go). `keccak` stands for Keccak-256 of
-- go-ethereum.
use daxie.Prelude.{
  ℕ, zero, suc, ◌-◌, ◌/◌, ◌%◌, ◌==◌, Option, none, some, List, [], ◌∷◌, ◌++◌, length, take,
  replicate, if◌then◌else◌,
}
use daxie.Prelude.Int.{ℤ, pos, negsuc}
use daxie.Prelude.Text.{Text, codes}

-- The bytes of a number, the highest first and none for 0. The fuel is the number itself.
unfoldable pub bytes_from : ℕ → ℕ → List ℕ → List ℕ
bytes_from zero n acc = acc
bytes_from (suc f) n acc =
    let rest = bytes_from f (n / 256) ((n % 256) ∷ acc) in if n == 0 then acc else rest

unfoldable pub number_bytes : ℕ → List ℕ
unfolding bytes_from
number_bytes n = bytes_from n n []

-- `LeftPadBytes` to 32 bytes.
unfoldable pub left_pad : List ℕ → List ℕ
left_pad bs = replicate (32 - length bs) 0 ++ bs

unfoldable pub addr_word : List ℕ → List ℕ
unfolding left_pad
addr_word a = left_pad a

-- A missing or negative amount is a word of zeros.
unfoldable pub uint_word : Option ℤ → List ℕ
unfolding left_pad number_bytes
uint_word none = replicate 32 0
uint_word (some (negsuc n)) = replicate 32 0
uint_word (some (pos n)) = left_pad (number_bytes n)

module _ (keccak : Text → List ℕ) where
  unfoldable pub selector : Text → List ℕ
  selector sig = take 4 (keccak sig)

  abbrev concat : List (List ℕ) → List ℕ
  concat [] = []
  concat (w ∷ ws) = w ++ concat ws

  abbrev pub pack : Text → List (List ℕ) → List ℕ
  pack sig words = selector sig ++ concat words

  unfoldable pub transfer_calldata : List ℕ → Option ℤ → List ℕ
  unfolding addr_word uint_word
  transfer_calldata to amount =
      pack (codes "transfer(address,uint256)") (addr_word to ∷ uint_word amount ∷ [])

  unfoldable pub approve_calldata : List ℕ → Option ℤ → List ℕ
  unfolding addr_word uint_word
  approve_calldata spender amount =
      pack (codes "approve(address,uint256)") (addr_word spender ∷ uint_word amount ∷ [])

  -- ERC-721 without an amount, ERC-1155 with one.
  unfoldable pub safe_transfer_from_calldata : List ℕ → List ℕ → Option ℤ → Option ℤ → List ℕ
  unfolding addr_word uint_word
  safe_transfer_from_calldata from to token_id none =
      pack (codes "safeTransferFrom(address,address,uint256)")
        (addr_word from ∷ addr_word to ∷ uint_word token_id ∷ [])
  safe_transfer_from_calldata from to token_id (some amount) =
      pack (codes "safeTransferFrom(address,address,uint256,uint256,bytes)") (
        addr_word from
        ∷ addr_word to
        ∷ uint_word token_id
        ∷ uint_word (some amount)
        ∷ uint_word (some (pos 160))
        ∷ uint_word (some (pos 0))
        ∷ [])
