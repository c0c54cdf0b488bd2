-- ===== src/Tls/Config/Suites.antt =====
-- The numbers of the cipher suites.
use vm_file_restore_operator.Base.{
  ℕ, ◌≡◌, ◌∙◌, ap, sym, refl, String, ◌=?◌, List, [], ◌∷◌, map, false, Option, none, some,
  if◌then◌else◌, Bool-cases, inl, inr,
}
use vm_file_restore_operator.Base.Texts.{has_prefix}
use vm_file_restore_operator.Base.Dict.{lookup, insert, lookup-insert}
use vm_file_restore_operator.Tls.Config.{
  insert_all, cipher_name_to_id, cipher_suites_ids, append_id, extra_cipher_suites,
  crypto_config_from_spec, select_cipher_suites_and_min_tls_version,
}

abbrev pub or_else : Option ℕ → Option ℕ → Option ℕ
or_else none o = o
or_else (some id) o = some id

-- The last number beside the name.
unfoldable pub last_id : String → List (String × ℕ) → Option ℕ
last_id name [] = none
last_id name ((k, id) ∷ pairs) = or_else (last_id name pairs) (if k =? name then some id else none)

-- The number that the library gives the name, or else that of the additional names.
unfoldable pub resolve : List (String × ℕ) → String → Option ℕ
unfolding last_id
resolve go name = or_else (last_id name go) (last_id name extra_cipher_suites)

unfoldable pub present : List (Option ℕ) → List ℕ
present [] = []
present (none ∷ os) = present os
present (some id ∷ os) = id ∷ present os

or_else_assoc : (a b c : Option ℕ) → or_else (or_else a b) c ≡ or_else a (or_else b c)
or_else_assoc none b c = refl
or_else_assoc (some id) b c = refl

lookup-insert_all :
    (name : String) (pairs m : List (String × ℕ))
    → lookup name (insert_all pairs m) ≡ or_else (last_id name pairs) (lookup name m)
unfolding insert_all last_id
lookup-insert_all name [] m = refl
lookup-insert_all name ((k, id) ∷ pairs) m =
    lookup-insert_all name pairs (insert k id m)
    ∙ (ap (or_else (last_id name pairs)) (lookup-insert k name id m ∙ one k id)
        ∙ sym (or_else_assoc (last_id name pairs) _ (lookup name m)))
  where
    one :
        (k : String) (id : ℕ)
        → (if k =? name then some id else lookup name m)
          ≡ or_else (if k =? name then some id else none) (lookup name m)
    one k id = elim (Bool-cases (k =? name)) [ inl hit ↦ rw hit refl | inr miss ↦ rw miss refl ]

or_else-none : (o : Option ℕ) → or_else o none ≡ o
or_else-none none = refl
or_else-none (some id) = refl

lookup-cipher_name_to_id :
    (go : List (String × ℕ)) (name : String) → lookup name (cipher_name_to_id go) ≡ resolve go name
unfolding cipher_name_to_id resolve lookup
lookup-cipher_name_to_id go name =
    lookup-insert_all name go (insert_all extra_cipher_suites [])
    ∙ ap (or_else (last_id name go))
        (lookup-insert_all name extra_cipher_suites [] ∙ or_else-none _)

append-present : (o : Option ℕ) (os : List (Option ℕ)) → append_id o (present os) ≡ present (o ∷ os)
unfolding append_id present
append-present none os = refl
append-present (some id) os = refl

module _ (go : List (String × ℕ)) where
  -- The numbers are those of the names in their order: of a name of the library, the library's; of
  -- another name, that of the additional names; a name that neither has is left out.
  pub cipher_suites_ids-eq-resolve :
      (names : List String) → cipher_suites_ids go names ≡ present (map (resolve go) names)
  unfolding cipher_suites_ids present
  cipher_suites_ids-eq-resolve [] = refl
  cipher_suites_ids-eq-resolve (name ∷ names) =
      rw (lookup-cipher_name_to_id go name, cipher_suites_ids-eq-resolve names)
        (append-present (resolve go name) (map (resolve go) names))

  -- What is documented of `tls.CipherSuites()`: the suites of TLS 1.3 with their numbers, and names
  -- that begin with `TLS_`.
  pub record IsGoSuites : Type 0 where
    pub aes_128 : last_id "TLS_AES_128_GCM_SHA256" go ≡ some 0x1301
    pub aes_256 : last_id "TLS_AES_256_GCM_SHA384" go ≡ some 0x1302
    pub chacha20 : last_id "TLS_CHACHA20_POLY1305_SHA256" go ≡ some 0x1303
    pub named : (name : String) → has_prefix name "TLS_" ≡ false → last_id name go ≡ none

  -- Without a profile, and with a library that keeps IsGoSuites, the metrics server offers the three
  -- suites of TLS 1.3 and the six ECDHE suites with AES-GCM or ChaCha20, in this order; the two DHE
  -- suites of the profile have no number.
  pub crypto_config_from_spec-suites :
      IsGoSuites
      → (crypto_config_from_spec go none).cipher_suites
        ≡ 0x1301 ∷ 0x1302 ∷ 0x1303 ∷ 0xc02b ∷ 0xc02f ∷ 0xc02c ∷ 0xc030 ∷ 0xcca9 ∷ 0xcca8 ∷ []
  unfolding crypto_config_from_spec select_cipher_suites_and_min_tls_version lookup has_prefix
      present resolve last_id
  crypto_config_from_spec-suites h = rw cipher_suites_ids-eq-resolve (
      rw
        (
          h.aes_128,
          h.aes_256,
          h.chacha20,
          h.named "ECDHE-ECDSA-AES128-GCM-SHA256" refl,
          h.named "ECDHE-RSA-AES128-GCM-SHA256" refl,
          h.named "ECDHE-ECDSA-AES256-GCM-SHA384" refl,
          h.named "ECDHE-RSA-AES256-GCM-SHA384" refl,
          h.named "ECDHE-ECDSA-CHACHA20-POLY1305" refl,
          h.named "ECDHE-RSA-CHACHA20-POLY1305" refl,
          h.named "DHE-RSA-AES128-GCM-SHA256" refl,
          h.named "DHE-RSA-AES256-GCM-SHA384" refl,
        )
        refl)
