-- ===== src/Kafka/Connection/Certificates.antt =====
-- What a client certificate was made of.
use kafka_minion.Kafka.Connection.{Platform, ◌>>=◌, decrypted, get_private_key, get_cert}
use kafka_minion.Options.{Options}
use kafka_minion.Prelude.{
  ◌≡◌, ◌⊎◌, refl, sym, true, false, ◌&&◌, Bytes, bytes_eq, Option, none, some, List, [], ◌∷◌, ◌==◌,
  some-eq, Bool-cases, inl, inr,
}

pub bind-eq-some :
    {A B : Type 0} (o : Option A) (f : A → Option B) {b : B}
    → (o >>= f) ≡ some b
    → (a : A) × (o ≡ some a) × (f a ≡ some b)
bind-eq-some none f e = cc
bind-eq-some (some a) f e = (a, refl, e)

module _ {Pem Cert : Type 0} (os : Platform Pem Cert) where
  -- The key of a PEM file: the file itself, or what the passphrase makes of an encrypted block.
  abbrev pub IsKey : Bytes → Bytes → Bytes → Type 0
  IsKey file passphrase key =
      (pem : Pem) × (os.pem_decode file ≡ some pem)
      × (((os.is_encrypted pem ≡ false) × (key ≡ file))
          ⊎ ((os.is_encrypted pem ≡ true)
              × ((bytes : Bytes) × (os.decrypt pem passphrase ≡ some bytes)
                  × (key ≡ os.encode (os.pem_type pem) bytes))))

  get_private_key-IsKey :
      (file passphrase : Bytes) {key : Bytes}
      → get_private_key os file passphrase ≡ some key
      → IsKey file passphrase key
  unfolding get_private_key decrypted
  get_private_key-IsKey file passphrase e =
      let (pem, decoded, rest) =
        bind-eq-some (os.pem_decode file) (decrypted os file passphrase) e in
      elim (Bool-cases (os.is_encrypted pem)) [
        | inl locked ↦
            let (bytes, opened, made) =
              bind-eq-some (os.decrypt pem passphrase)
                (λ bytes. some (os.encode (os.pem_type pem) bytes))
                (rw (locked, decrypted) at rest) in
            (pem, decoded, inr (locked, (bytes, opened, sym (some-eq made))))
        | inr plain ↦ (pem, decoded, inl (plain, sym (some-eq (rw (plain, decrypted) at rest))))
      ]

  -- The one certificate is the pair of the certificate file and the key of the key file.
  abbrev pub IsPair : Options → List Cert → Type 0
  IsPair opts certs =
      (pair : Cert) × (cert : Bytes) × (file : Bytes) × (key : Bytes) × (os.read_file
          opts.tls_cert_file_path
        ≡ some cert)
      × (os.read_file opts.tls_key_file_path ≡ some file)
      × IsKey file opts.tls_passphrase key
      × (os.key_pair cert key ≡ some pair)
      × (certs ≡ pair ∷ [])

  pub get_cert-IsPair :
      (opts : Options) {certs : List Cert} → get_cert os opts ≡ some certs → IsPair opts certs
  unfolding get_cert
  get_cert-IsPair opts e =
      elim (Bool-cases (opts.tls_cert_file_path == [] && opts.tls_key_file_path == [])) [
        | inl no_paths ↦ cc (rw (no_paths, get_cert) at e)
        | inr paths ↦
            let (cert, a, e1) = bind-eq-some _ _ (rw (paths, get_cert) at e) in
            let (file, b, e2) = bind-eq-some _ _ e1 in
            let (key, c, e3) = bind-eq-some _ _ e2 in
            let (pair, d, e4) = bind-eq-some _ _ e3 in
            (
              pair,
              cert,
              file,
              key,
              a,
              b,
              get_private_key-IsKey file opts.tls_passphrase c,
              d,
              sym (some-eq e4),
            )
      ]
