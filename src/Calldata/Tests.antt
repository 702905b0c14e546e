-- ===== src/Calldata/Tests.antt =====
-- Calldata built and read back on small inputs (internal/erc/erc.go and internal/abi/classify.go).
use daxie.Prelude.{◌++◌, replicate, if◌then◌else◌}
use daxie.Prelude.Text.{Text, codes, text_eq}
use daxie.Policy.Types.{Address}
use daxie.Calldata.{
  Bytes, sel_approve, sel_transfer, sel_safe_transfer_from1, sel_safe_transfer_from3, hex,
}

-- Hashes of the four signatures, of which the first bytes are the real ones.
abbrev keccak : Text → Bytes
unfolding text_eq
keccak t =
    if text_eq t (codes "approve(address,uint256)")
    then sel_approve ++ replicate 28 1
    else if text_eq t (codes "transfer(address,uint256)")
    then sel_transfer ++ replicate 28 1
    else if text_eq t (codes "safeTransferFrom(address,address,uint256)")
    then sel_safe_transfer_from1 ++ replicate 28 1
    else sel_safe_transfer_from3 ++ replicate 28 1

abbrev to_text : Bytes → Address
unfolding hex
to_text a = codes "0x" ++ hex a

abbrev spender : Bytes
spender = replicate 20 7

abbrev from : Bytes
from = replicate 20 9

abbrev token : Address
token = codes "0xCC"
