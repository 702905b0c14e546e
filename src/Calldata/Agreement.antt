-- ===== src/Calldata/Agreement.antt =====
-- The calldata of the token commands, as the policy reads it back (internal/erc/erc.go against
-- internal/abi/classify.go and internal/policy/calldata.go).
use daxie.Prelude.{ℕ, false, Option, some}
use daxie.Prelude.Text.{Text}
use daxie.Policy.Stages.Amounts.{is_unlimited_amount}
use daxie.Calldata.{Bytes, SelectorClass, Recognized, zero_bytes}

abbrev pub approve_class : Bytes → ℕ → SelectorClass
approve_class spender n = record {
  kind = Recognized.approval;
  spender = spender;
  recipient = zero_bytes;
  amount = some n;
  unlimited = is_unlimited_amount (some n);
}

abbrev pub transfer_class : Bytes → Option ℕ → SelectorClass
transfer_class recipient amount = record {
  kind = Recognized.transfer;
  spender = zero_bytes;
  recipient = recipient;
  amount = amount;
  unlimited = false;
}

-- ── whole calldata ──
