-- ===== src/Policy/Writer.antt =====
-- The bytes of the policy body, which the seal covers (writeBody and its helpers in
-- internal/policy/file.go). `sort.Slice` is an insertion sort here, so entries that agree in all keys
-- keep their order.
pub mod Strings
use daxie.Prelude.{
  ℕ, ◌+◌, ◌-◌, ◌/◌, ◌%◌, Bool, true, false, not, ◌&&◌, ◌||◌, ◌==◌, Option, none, some, List, [],
  ◌∷◌, ◌++◌, map, ltb, if◌then◌else◌,
}
use daxie.Prelude.Text.{Text, codes, text_eq, text_lt, is_empty}
use daxie.Decimal.{format_nat}
use daxie.Policy.Types.{
  Limits, NetworkRule, TokenRule, PinEntry, TypedAllow, ContractAllow, Rules, TypedDataCfg, Policy,
}
use daxie.Policy.Limits.{null_sentinel}

-- ── strings ──

unfoldable pub hex_digit : ℕ → ℕ
hex_digit d = if ltb d 10 then d + b'0' else d - 10 + b'a'

-- The escape of one character.
unfoldable pub escape : ℕ → Text
unfolding hex_digit
escape c =
    if c == b'"'
    then b'\\' ∷ b'"' ∷ []
    else if c == b'\\'
    then b'\\' ∷ b'\\' ∷ []
    else if c == 10
    then b'\\' ∷ b'n' ∷ []
    else if c == 13
    then b'\\' ∷ b'r' ∷ []
    else if c == 9
    then b'\\' ∷ b't' ∷ []
    else if ltb c 32
    then b'\\' ∷ b'u' ∷ b'0' ∷ b'0' ∷ hex_digit (c / 16) ∷ hex_digit (c % 16) ∷ []
    else c ∷ []

unfoldable pub escape_all : Text → Text
unfolding escape
escape_all [] = []
escape_all (c ∷ s) = escape c ++ escape_all s

unfoldable pub json_string : Text → Text
unfolding escape_all
json_string s = b'"' ∷ (escape_all s ++ b'"' ∷ [])

-- ── order ──

-- Lexicographic order of two keys and what follows them.
abbrev pub then_by : Text → Text → Bool → Bool
then_by a b less = if not (text_eq a b) then text_lt a b else less

module _ {A : Type 0} (less : A → A → Bool) where
  unfoldable pub insert_by : A → List A → List A
  insert_by x [] = x ∷ []
  insert_by x (y ∷ ys) = if less y x then y ∷ insert_by x ys else x ∷ y ∷ ys

  unfoldable pub sort_by : List A → List A
  unfolding insert_by
  sort_by [] = []
  sort_by (x ∷ xs) = insert_by x (sort_by xs)

-- ── fields ──

-- Elements with commas between them.
unfoldable pub commas : List Text → Text
commas [] = []
commas (x ∷ []) = x
commas (x ∷ y ∷ ys) = x ++ b',' ∷ commas (y ∷ ys)

abbrev pub object : List Text → Text
object fields = b'{' ∷ (commas fields ++ b'}' ∷ [])

abbrev pub array : List Text → Text
array elements = b'[' ∷ (commas elements ++ b']' ∷ [])

abbrev pub raw_field : Text → Text → Text
raw_field k v = json_string k ++ b':' ∷ v

abbrev pub str_field : Text → Text → Text
str_field k v = raw_field k (json_string v)

abbrev pub bool_text : Bool → Text
bool_text true = codes "true"
bool_text false = codes "false"

-- A string field that is left out when it is empty.
abbrev pub set_field : Text → Text → List Text
set_field k v = if is_empty v then [] else str_field k v ∷ []

abbrev pub limit_field : Text → Option Text → List Text
limit_field k none = []
limit_field k (some v) =
    raw_field k (if text_eq v null_sentinel then codes "null" else json_string v) ∷ []

abbrev pub flag_field : Text → Option Bool → List Text
flag_field k none = []
flag_field k (some b) = raw_field k (bool_text b) ∷ []

abbrev pub unknown_field : Option Text → Bool → List Text
unknown_field (some v) true = str_field (codes "typed_data_unknown") v ∷ []
unknown_field (some v) false = []
unknown_field none _ = []

-- ── the blocks ──

unfoldable pub write_limits_inline : Limits → Bool → Text
unfolding json_string commas
write_limits_inline l per_network = commas (
    limit_field (codes "max_tx_wei") l.max_tx_wei
    ++ (limit_field (codes "max_day_wei") l.max_day_wei
        ++ (limit_field (codes "max_gas_price_wei") l.max_gas_price_wei
            ++ (flag_field (codes "allowlist_enabled") l.allowlist_enabled
                ++ (flag_field (codes "include_self") l.include_self
                    ++ unknown_field l.typed_data_unknown per_network)))))

unfoldable pub write_limits : Limits → Bool → Text
unfolding write_limits_inline
write_limits l per_network = b'{' ∷ (write_limits_inline l per_network ++ b'}' ∷ [])

-- The comma after the name is written whatever follows.
unfoldable pub write_network : NetworkRule → Text
unfolding write_limits_inline json_string
write_network n =
    b'{'
    ∷ (str_field (codes "network") n.network
        ++ b',' ∷ (write_limits_inline n.limits true ++ b'}' ∷ []))

unfoldable pub write_rules : Rules → Text
unfolding write_limits write_network json_string commas
write_rules r = object (
    raw_field (codes "default") (write_limits r.default false)
    ∷ raw_field (codes "networks") (array (map write_network r.networks))
    ∷ [])

abbrev unlimited_text : Option Bool → Text
unlimited_text none = codes "null"
unlimited_text (some b) = bool_text b

unfoldable pub write_tokens : List TokenRule → Text
unfolding json_string commas sort_by
write_tokens ts = array (
    map
      (λ (t : TokenRule). object (
        str_field (codes "network") t.network
        ∷ str_field (codes "address") t.address
        ∷ str_field (codes "alias_at_set") t.alias_at_set
        ∷ raw_field (codes "allow_unlimited") (unlimited_text t.allow_unlimited)
        ∷ []))
      (sort_by (λ (t u : TokenRule). then_by t.network u.network (text_lt t.address u.address)) ts))

unfoldable pub write_pins : List PinEntry → Text
unfolding json_string commas sort_by
write_pins ps = array (
    map
      (λ (p : PinEntry). object (
        str_field (codes "source") p.source
        ∷ str_field (codes "address") p.address
        ∷ (set_field (codes "name") p.name
            ++ (set_field (codes "label") p.label
                ++ (set_field (codes "added_at") p.added_at
                    ++ set_field (codes "resolved_at") p.resolved_at)))))
      (sort_by
        (λ (p q : PinEntry).
          then_by p.source q.source (then_by p.address q.address (text_lt p.name q.name)))
        ps))

unfoldable pub write_strings : List Text → Text
unfolding json_string commas sort_by
write_strings ss = array (map json_string (sort_by text_lt ss))

unfoldable pub write_typed_data : TypedDataCfg → Text
unfolding json_string commas sort_by
write_typed_data td = object (
    str_field (codes "unknown") td.unknown
    ∷ raw_field (codes "allowed") (
        array (
          map
            (λ (a : TypedAllow). object (
              raw_field (codes "chain_id") (format_nat a.chain_id)
              ∷ str_field (codes "verifying_contract") a.verifying_contract
              ∷ str_field (codes "primary_type") a.primary_type
              ∷ str_field (codes "label") a.label
              ∷ []))
            (sort_by
              (λ (a b : TypedAllow).
                if not (a.chain_id == b.chain_id)
                then ltb a.chain_id b.chain_id
                else then_by a.verifying_contract b.verifying_contract
                    (text_lt a.primary_type b.primary_type))
              td.allowed)))
    ∷ [])

unfoldable pub write_contracts : List ContractAllow → Text
unfolding json_string commas sort_by
write_contracts cs = array (
    map
      (λ (c : ContractAllow). object (
        str_field (codes "network") c.network
        ∷ str_field (codes "contract") c.contract
        ∷ str_field (codes "selector") c.selector
        ∷ str_field (codes "label") c.label
        ∷ str_field (codes "added_at") c.added_at
        ∷ []))
      (sort_by
        (λ (a b : ContractAllow).
          then_by a.network b.network
            (then_by a.contract b.contract (text_lt a.selector b.selector)))
        cs))

unfoldable pub write_body : Policy → Text
unfolding write_rules write_tokens write_pins write_strings write_typed_data write_contracts
write_body p = object (
    raw_field (codes "version") (format_nat p.version)
    ∷ raw_field (codes "nonce") (format_nat p.nonce)
    ∷ str_field (codes "updated_at") p.updated_at
    ∷ str_field (codes "written_by") p.written_by
    ∷ str_field (codes "messages") p.messages
    ∷ raw_field (codes "tokens_no_allowlist_ok") (bool_text p.tokens_no_allowlist_ok)
    ∷ raw_field (codes "rules") (write_rules p.rules)
    ∷ raw_field (codes "tokens") (write_tokens p.tokens)
    ∷ raw_field (codes "allowlist") (write_pins p.allowlist)
    ∷ raw_field (codes "denylist") (write_pins p.denylist)
    ∷ raw_field (codes "self_addresses") (write_strings p.self_addresses)
    ∷ raw_field (codes "typed_data") (write_typed_data p.typed_data)
    ∷ raw_field (codes "contracts_allowed") (write_contracts p.contracts_allowed)
    ∷ [])

unfoldable pub marshal_envelope : Text → Text → Text
unfolding json_string commas
marshal_envelope body_b64 sig = object (
    raw_field (codes "version") (codes "1")
    ∷ str_field (codes "body_b64") body_b64
    ∷ raw_field (codes "seal") (
        object
          (str_field (codes "alg") (codes "scrypt/ed25519") ∷ str_field (codes "sig") sig ∷ []))
    ∷ [])
