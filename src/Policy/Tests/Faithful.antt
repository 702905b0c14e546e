-- ===== src/Policy/Tests/Faithful.antt =====
-- Decoders that undo the encoders of the seal (internal/policyseal/seal.go, internal/policy/file.go).
use daxie.Prelude.{
  ◌≡◌, refl, Option, none, some, append_assoc, length, drop, replicate, if◌then◌else◌,
}
use daxie.Prelude.Int.{pos}
use daxie.Prelude.Text.{Text, codes, text_eq}
use daxie.Policy.Writer.{json_string, escape, escape_all, marshal_envelope, commas}
use daxie.Policy.Writer.Strings.{read, plain, read-escape_all}
use daxie.Policy.Seal.{Codec, Envelope}
use daxie.Policy.Keys.{Crypto}
use daxie.Policy.Admin.Reload.{IsFaithful}
use daxie.Policy.Tests.Data.{policy}

abbrev second : Text → Option (Text × Text) → Option Envelope
second b none = none
second b (some (s, rest)) = some (record { body_b64 = b; sig = s })

abbrev first : Option (Text × Text) → Option Envelope
unfolding read
first none = none
first (some (b, rest)) = second b (read plain (drop 39 rest))

abbrev parse : Text → Option Envelope
unfolding read first
parse raw = first (read plain (drop 25 raw))

parsed : (b s : Text) → parse (marshal_envelope b s) ≡ some (record { body_b64 = b; sig = s })
unfolding parse first marshal_envelope commas json_string escape_all escape
parsed b s = simp (append_assoc, read-escape_all)

abbrev zeros : Text
zeros = replicate 64 0

-- The first file has the nonce 7, and every other one the nonce 8.
unfoldable pub codec : Codec
unfolding parse text_eq
codec = record {
  read_envelope = parse;
  base64 = λ t. some t;
  ed25519_verify = λ pk message sig. text_eq sig zeros;
  read_head = λ body. some (record {
    version = pos 1;
    nonce = if text_eq body (codes "body") then 7 else 8;
    written_by = codes "daxie";
  });
  read_body = λ body. some policy;
}

-- A passphrase is its own seed, and the public key depends on the length of the seed.
unfoldable pub crypto : Crypto
unfolding codec
crypto = record {
  codec = codec;
  encode64 = λ t. t;
  scrypt = λ pass salt p. some pass;
  hkdf = λ master info. some master;
  key_from_seed = λ seed. record { private = seed; public = replicate 32 (length seed) };
  ed25519_sign = λ sk m. zeros;
}

pub crypto-IsFaithful : IsFaithful crypto
unfolding crypto codec text_eq
crypto-IsFaithful = record {
  base64_back = λ t. refl;
  envelope_back = parsed;
  key_size = λ seed. refl;
  signature_size = λ sk m. refl;
  verifies = λ seed m. refl;
}
