-- ===== src/Kafka/Connection/Settings.antt =====
-- What a client configuration holds, by the options that it is made of.
use kafka_minion.Kafka.Connection.{
  v0_11_0_2, Sasl, Tls, ClientConfig, Platform, can_read_cert_and_key, with_sasl, load_ca,
  load_certificates, load_tls, with_tls, client_name, sarama_client_config,
}
use kafka_minion.Kafka.Connection.Certificates.{bind-eq-some, IsPair, get_cert-IsPair}
use kafka_minion.Options.{Options}
use kafka_minion.Prelude.{
  ◌≡◌, ◌≢◌, ◌⊎◌, subst, refl, sym, ap, ◌∙◌, Bool, true, false, not, Bytes, bytes_eq, Option, none,
  some, List, [], ◌∷◌, ◌==◌, ==_iff, some-eq, Bool-cases, inl, inr, if◌then◌else◌,
}

module _ {Pem Cert : Type 0} (os : Platform Pem Cert) (opts : Options) where
  abbrev cert_opens : Bool
  cert_opens = os.opens opts.tls_cert_file_path

  abbrev key_opens : Bool
  key_opens = os.opens opts.tls_key_file_path

  -- Both files open and make the certificate, or neither opens and there is none.
  abbrev pub HasCertificates : List Cert → Type 0
  HasCertificates certs =
      ((os.opens opts.tls_cert_file_path ≡ true)
        × (os.opens opts.tls_key_file_path ≡ true)
        × IsPair os opts certs)
      ⊎ ((os.opens opts.tls_cert_file_path ≡ false)
          × (os.opens opts.tls_key_file_path ≡ false)
          × (certs ≡ []))

  -- The certificate authorities are those of the named file, which has been read, if one is named.
  abbrev pub HasAuthorities : List Bytes → Type 0
  HasAuthorities cas =
      ((opts.tls_ca_file_path ≡ []) × (cas ≡ []))
      ⊎ ((ca : Bytes) × (os.read_file opts.tls_ca_file_path ≡ some ca) × (cas ≡ ca ∷ []))

  -- An option that is given, and else what was set before.
  abbrev pub IsChosen : Bytes → Bytes → Bytes → Type 0
  IsChosen given before chosen =
      ((given ≡ []) × (chosen ≡ before)) ⊎ ((given ≢ []) × (chosen ≡ given))

  pub record IsSasl (sasl : Sasl) : Type 0 where
    pub enable : sasl.enable ≡ true
    pub handshake : sasl.handshake ≡ opts.use_sasl_handshake
    pub user : IsChosen opts.sasl_username os.new_config.sasl.user sasl.user
    pub password : IsChosen opts.sasl_password os.new_config.sasl.password sasl.password

  -- With SASL enabled the options' settings, and else sarama's own.
  abbrev pub HasSasl : Sasl → Type 0
  HasSasl sasl =
      ((opts.sasl_enabled ≡ true) × IsSasl sasl)
      ⊎ ((opts.sasl_enabled ≡ false) × (sasl ≡ os.new_config.sasl))

  option-IsChosen :
      (given before : Bytes) → IsChosen given before (if given == [] then before else given)
  option-IsChosen [] before = inl (refl, refl)
  option-IsChosen (b ∷ bs) before = inr ((λ e. cc), refl)

  with_sasl-HasSasl : HasSasl (with_sasl os opts os.new_config.sasl)
  unfolding with_sasl
  with_sasl-HasSasl = go opts.sasl_enabled refl
    where
      go :
          (on : Bool)
          → opts.sasl_enabled ≡ on
          → HasSasl (
              if on
              then record {
                enable = true;
                handshake = opts.use_sasl_handshake;
                user =
                    if opts.sasl_username == []
                    then os.new_config.sasl.user
                    else opts.sasl_username;
                password =
                    if opts.sasl_password == []
                    then os.new_config.sasl.password
                    else opts.sasl_password;
              }
              else os.new_config.sasl)
      go true on = inl (
        on,
        record {
          enable = refl;
          handshake = refl;
          user = option-IsChosen opts.sasl_username os.new_config.sasl.user;
          password = option-IsChosen opts.sasl_password os.new_config.sasl.password;
        },
      )
      go false off = inr (off, refl)

  pub record IsTls (tls : Tls Cert) : Type 0 where
    pub verify : tls.insecure_skip_verify ≡ opts.tls_insecure_skip_tls_verify
    pub authorities : HasAuthorities tls.root_cas
    pub certificates : HasCertificates tls.certificates

  load_ca-HasAuthorities : {cas : List Bytes} → load_ca os opts ≡ some cas → HasAuthorities cas
  unfolding load_ca
  load_ca-HasAuthorities e = elim (Bool-cases (opts.tls_ca_file_path == [])) [
    | inl unnamed ↦
        inl
          ((==_iff opts.tls_ca_file_path []).0 unnamed, sym (some-eq (rw (unnamed, load_ca) at e)))
    | inr named ↦
        let (ca, found, made) = bind-eq-some _ _ (rw (named, load_ca) at e) in
        inr (ca, found, sym (some-eq made))
  ]

  certificates-HasCertificates :
      {readable : Bool} {certs : List Cert}
      → can_read_cert_and_key cert_opens key_opens ≡ some readable
      → load_certificates os opts readable ≡ some certs
      → HasCertificates certs
  unfolding can_read_cert_and_key load_certificates
  certificates-HasCertificates {readable} {certs} e f =
      by_files (os.opens opts.tls_cert_file_path) (os.opens opts.tls_key_file_path) refl refl e
    where
      by_files :
          (c k : Bool)
          → os.opens opts.tls_cert_file_path ≡ c
          → os.opens opts.tls_key_file_path ≡ k
          → can_read_cert_and_key c k ≡ some readable
          → HasCertificates certs
      by_files true true c k e =
          let on : readable ≡ true = cc (e) in
          inl (c, k, get_cert-IsPair os opts (rw (on, load_certificates) at f))
      by_files false false c k e =
          let off : readable ≡ false = cc (e) in
          inr (c, k, sym (some-eq (rw (off, load_certificates) at f)))
      by_files true false c k e = cc
      by_files false true c k e = cc

  load_tls-IsTls :
      (config : ClientConfig Cert) {c : ClientConfig Cert}
      → load_tls os opts config ≡ some c
      → (tls : Tls Cert) × IsTls tls × (c ≡ record config { tls_enable = true; tls = some tls })
  unfolding load_tls
  load_tls-IsTls config e =
      let (readable, a, e1) = bind-eq-some _ _ e in
      let (cas, b, e2) = bind-eq-some _ _ e1 in
      let (certs, c, e3) = bind-eq-some _ _ e2 in
      (
        record {
          root_cas = cas;
          insecure_skip_verify = opts.tls_insecure_skip_tls_verify;
          certificates = certs;
        },
        record {
          verify = refl;
          authorities = load_ca-HasAuthorities b;
          certificates = certificates-HasCertificates a c;
        },
        sym (some-eq e3),
      )

  enabled :
      (b : Bool) (off loaded : Option (ClientConfig Cert)) {c : ClientConfig Cert}
      → b ≡ true
      → (if not b then off else loaded) ≡ some c
      → loaded ≡ some c
  enabled true off loaded on e = e
  enabled false off loaded on e = cc

  abbrev plain : ClientConfig Cert
  plain = record os.new_config {
    client_id = client_name os;
    version = v0_11_0_2;
    sasl = with_sasl os opts os.new_config.sasl;
  }

  valid-some :
      (c : ClientConfig Cert) {d : ClientConfig Cert}
      → (if os.is_valid c then some c else none) ≡ some d
      → (c ≡ d) × (os.is_valid d ≡ true)
  valid-some c {d} e = elim (Bool-cases (os.is_valid c)) [
    | inl good ↦
        let same : c ≡ d = some-eq (rw good at e) in (same, ap os.is_valid (sym same) ∙ good)
    | inr bad ↦ cc (rw bad at e)
  ]

  -- With TLS enabled, a configuration that is returned is valid, has TLS on with the option for the
  -- verification, the authorities of the CA file, which could be read, and the certificate made of both
  -- files or, if neither opens, none: a certificate without its key or a key that cannot be decrypted
  -- returns no configuration. If SASL is enabled, it is on with the option for the handshake, and the user
  -- and the password are the options' where these are not empty; if not, SASL is as sarama sets it.
  pub tls_config :
      {c : ClientConfig Cert}
      → opts.tls_enabled ≡ true
      → sarama_client_config os opts ≡ some c
      → (os.is_valid c ≡ true)
        × (c.tls_enable ≡ true)
        × ((tls : Tls Cert) × (c.tls ≡ some tls) × IsTls tls)
        × HasSasl c.sasl
  unfolding sarama_client_config with_tls
  tls_config {c} on e =
      let (t, made, valid) = bind-eq-some (with_tls os opts plain) _ e in
      let (tls, is, shape) =
        load_tls-IsTls plain
          (enabled opts.tls_enabled (some plain) (load_tls os opts plain) on made) in
      let (same, good) = valid-some t valid in
      (
        good,
        ap (λ x. x.tls_enable) (sym same ∙ shape),
        (tls, ap (λ x. x.tls) (sym same ∙ shape), is),
        subst HasSasl (ap (λ (x : ClientConfig Cert). x.sasl) (sym shape ∙ same)) with_sasl-HasSasl,
      )
