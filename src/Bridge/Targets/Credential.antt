-- ===== src/Bridge/Targets/Credential.antt =====
-- What is known of a credential that the Maple target accepts, and where it exports to.
use Prim.Native.String as Text
use Prim.Native.String.append
use spark_signals.Prelude.{
  ℕ, zero, suc, ◌+◌, ◌≤◌, ◌<◌, ◌%◌, String, ◌≡◌, refl, sym, ap, subst, ◌∙◌, Bool, true, false, not,
  ◌&&◌, ◌||◌, Option, none, some, List, [], ◌∷◌, All, any, length, ltb, is_some_and, ok, Result,
  ok_or, ensure, >>=-eq-ok, some_of_ok_or, true_of_ensure, arith, left_of_both, right_of_both,
  false_of_not, left_of_neither, right_of_neither,
}
use spark_signals.Order.{◌==◌, eq_iff, text_ord, nat_ord}
use spark_signals.Text.{is_empty, any_char, strip_prefix, concat}
use spark_signals.Bridge.Targets.Endpoint.{authority_kept}
use spark_signals.Bridge.Targets.Maple.{
  max_maple_credential_bytes, MaplePlugin, MapleCredential, TargetError, ParentMetadata,
  FileMetadata, PathState, others_write, validate_parent_metadata, validate_parents,
  validate_credential_metadata, take, authority, valid_authority, valid_suffix, validate_credential,
  PreparedOtlpTarget, load_credential, exporter_config, override_variables, reject_otel_overrides,
  prepare_maple,
}

-- A real directory of root that neither its group nor others can write.
abbrev pub IsRootDirectory : Option ParentMetadata → Type 0
IsRootDirectory none = ⊥
IsRootDirectory (some m) =
    (m.is_symlink ≡ false) × (m.is_dir ≡ true) × (m.uid ≡ 0) × (others_write m.mode ≡ false)

-- A regular file of root with mode 0600 and 1 to 16384 bytes.
abbrev pub IsPrivateFile : FileMetadata → Type 0
IsPrivateFile m =
    (m.is_file ≡ true)
    × (m.uid ≡ 0)
    × (m.mode % 4096 ≡ 384)
    × (0 < m.len)
    × (m.len ≤ max_maple_credential_bytes)

parents_checked :
    (parents : List (Option ParentMetadata))
    → validate_parents parents ≡ ok tt
    → All IsRootDirectory parents
unfolding validate_parents validate_parent_metadata
parents_checked [] h = tt
parents_checked (none ∷ parents) h = cc
parents_checked (some m ∷ parents) h =
    let (_, first, rest) = >>=-eq-ok (validate_parent_metadata m) _ h in
    let (_, a, b) =
      >>=-eq-ok (ensure (not (m.is_symlink || not m.is_dir)) TargetError.parent_not_directory) _
        first in
    let x = true_of_ensure _ TargetError.parent_not_directory a in
    let y = true_of_ensure _ TargetError.parent_not_root b in
    (ground (arith, x, y), parents_checked parents rest)

file_checked : (m : FileMetadata) → validate_credential_metadata m ≡ ok tt → IsPrivateFile m
unfolding validate_credential_metadata
file_checked m h = ground (arith, h)

not_above : (n m : ℕ) → not (ltb n m) ≡ true → m ≤ n
not_above n m h = ground arith

take_short : (n : ℕ) (bytes : List ℕ) → length (take (suc n) bytes) ≤ n → take (suc n) bytes ≡ bytes
take_short n [] h = refl
take_short zero (b ∷ bytes) h = absurd (omega (arith, h))
take_short (suc n) (b ∷ bytes) h = ap (λ l. b ∷ l) (take_short n bytes (omega (arith, h)))

-- What the credential is known to be, of a path and for a plugin.
pub record IsTrusted (from_slice : List ℕ → Option MapleCredential) (plugin : MaplePlugin)
    (path : PathState) (c : MapleCredential) : Type 0 where
  pub absolute : path.is_absolute ≡ true
  pub parents :
      (ps : List (Option ParentMetadata)) × (path.parents ≡ some ps) × All IsRootDirectory ps
  pub file : (m : FileMetadata) × (path.metadata ≡ some m) × IsPrivateFile m
  pub read :
      (bytes : List ℕ) × (path.bytes ≡ some bytes)
      × (length bytes ≤ max_maple_credential_bytes)
      × (from_slice bytes ≡ some c)
  pub schema : c.schema ≡ plugin.schema
  pub producer : c.producer ≡ plugin.producer
  pub endpoint : is_some_and (authority c.endpoint) valid_authority ≡ true
  pub protocol : c.protocol ≡ "http/protobuf"
  pub username :
      is_some_and
        (strip_prefix c.username (concat ("maple-" ∷ plugin.producer ∷ "-" ∷ [])))
        valid_suffix
      ≡ true
  pub username_unsplit : any_char (λ x. x == b':') c.username ≡ false
  pub password_given : is_empty c.password ≡ false
  pub password_unsplit : any_char (λ x. x == b'\r' || x == b'\n') c.password ≡ false

validated :
    (c : MapleCredential) (schema producer : String)
    → validate_credential c schema producer ≡ ok tt
    → (c.schema ≡ schema)
      × (c.producer ≡ producer)
      × (is_some_and (authority c.endpoint) valid_authority ≡ true)
      × (c.protocol ≡ "http/protobuf")
      × (is_some_and
            (strip_prefix c.username (concat ("maple-" ∷ producer ∷ "-" ∷ [])))
            valid_suffix
          ≡ true)
      × (any_char (λ x. x == b':') c.username ≡ false)
      × (is_empty c.password ≡ false)
      × (any_char (λ x. x == b'\r' || x == b'\n') c.password ≡ false)
unfolding validate_credential
validated c schema producer h =
    let (_, s, k) =
      >>=-eq-ok (ensure (not (is_empty schema || not (c.schema == schema))) TargetError.bad_schema)
        _ h in
    let (_, p, l) = >>=-eq-ok (ensure (c.producer == producer) TargetError.bad_producer) _ k in
    let (_, e, m) =
      >>=-eq-ok
        (ensure (is_some_and (authority c.endpoint) valid_authority) TargetError.bad_endpoint) _
        l in
    let (_, t, n) =
      >>=-eq-ok (ensure (c.protocol == "http/protobuf") TargetError.bad_protocol) _ m in
    let (_, u, w) =
      >>=-eq-ok
        (ensure
          (is_some_and (strip_prefix c.username (concat ("maple-" ∷ producer ∷ "-" ∷ [])))
              valid_suffix
            && not (any_char (λ x. x == b':') c.username))
          TargetError.bad_username)
        _ n in
    let same = true_of_ensure _ TargetError.bad_schema s in
    let producers = true_of_ensure _ TargetError.bad_producer p in
    let endpoints = true_of_ensure _ TargetError.bad_endpoint e in
    let names = true_of_ensure _ TargetError.bad_username u in
    let passwords = true_of_ensure _ TargetError.bad_password w in
    let schemas : (c.schema == schema) ≡ true = ground (arith, same) in
    (
      (eq_iff c.schema schema).0 schemas,
      (eq_iff c.producer producer).0 producers,
      endpoints,
      (eq_iff c.protocol "http/protobuf").0 (true_of_ensure _ TargetError.bad_protocol t),
      left_of_both _ _ names,
      false_of_not _ (right_of_both _ _ names),
      left_of_neither _ _ passwords,
      right_of_neither _ _ passwords,
    )

same_value :
    (r : Result MapleCredential TargetError) (a b : MapleCredential) → r ≡ ok a → r ≡ ok b → a ≡ b
same_value r a b h k = cc (h, k)

module _ (from_slice : List ℕ → Option MapleCredential) (base64 : String → String)
    (state_of : String → PathState) (is_set : String → Bool) where
  load_credential-IsTrusted :
      (path : PathState) (plugin : MaplePlugin) (c : MapleCredential)
      → load_credential from_slice path plugin.schema plugin.producer ≡ ok c
      → IsTrusted from_slice plugin path c
  unfolding load_credential
  load_credential-IsTrusted path plugin c h =
      let (_, a, k1) = >>=-eq-ok (ensure path.is_absolute TargetError.not_absolute) _ h in
      let (ps, p, k2) = >>=-eq-ok (ok_or path.parents TargetError.no_parent) _ k1 in
      let (_, v, k3) = >>=-eq-ok (validate_parents ps) _ k2 in
      let (_, _, k4) = >>=-eq-ok (ensure path.opens TargetError.not_opened) _ k3 in
      let (m, q, k5) = >>=-eq-ok (ok_or path.metadata TargetError.no_metadata) _ k4 in
      let (_, f, k6) = >>=-eq-ok (validate_credential_metadata m) _ k5 in
      let (bytes, b, k7) = >>=-eq-ok (ok_or path.bytes TargetError.not_read) _ k6 in
      let taken = take (max_maple_credential_bytes + 1) bytes in
      let (_, s, k8) =
        >>=-eq-ok
          (ensure (not (ltb max_maple_credential_bytes (length taken))) TargetError.too_large) _
          k7 in
      let (d, r, k9) = >>=-eq-ok (ok_or (from_slice taken) TargetError.not_decoded) _ k8 in
      let (_, w, e) = >>=-eq-ok (validate_credential d plugin.schema plugin.producer) _ k9 in
      let same = same_value (ok d) d c refl e in
      let small = true_of_ensure _ TargetError.too_large s in
      let fits : length taken ≤ max_maple_credential_bytes =
        not_above max_maple_credential_bytes (length taken) small in
      let whole : taken ≡ bytes = take_short max_maple_credential_bytes bytes fits in
      let (schema, producer, endpoint, protocol, username, colon, given, breaks) =
        validated d plugin.schema plugin.producer w in
      subst (IsTrusted from_slice plugin path) same (record {
        absolute = true_of_ensure path.is_absolute TargetError.not_absolute a;
        parents = (ps, some_of_ok_or path.parents TargetError.no_parent p, parents_checked ps v);
        file = (m, some_of_ok_or path.metadata TargetError.no_metadata q, file_checked m f);
        read = (
          bytes,
          some_of_ok_or path.bytes TargetError.not_read b,
          subst (λ l. length l ≤ max_maple_credential_bytes) whole fits,
          subst (λ l. from_slice l ≡ some d) whole
              (some_of_ok_or (from_slice taken) TargetError.not_decoded r),
        );
        schema = schema;
        producer = producer;
        endpoint = endpoint;
        protocol = protocol;
        username = username;
        username_unsplit = colon;
        password_given = given;
        password_unsplit = breaks;
      })

  -- If the Maple target is prepared, no OTLP variable overrides it, and its credential is read from
  -- a file that root alone can write, at an absolute path through directories of root that are no
  -- links and that others cannot write; it has at most 16 KiB and is for the schema and producer
  -- asked for. The exporter sends to its endpoint, unchanged. Its protocol is the one that is
  -- supported, its user name is the producer's with a suffix of ASCII letters and digits, and holds
  -- no colon, so that it can be told from the password, and the password is one line that is not
  -- empty.
  pub prepare_maple-IsTrusted :
      (plugin : MaplePlugin) (target : PreparedOtlpTarget)
      → prepare_maple from_slice base64 state_of is_set plugin ≡ ok target
      → (any is_set override_variables ≡ false)
        × ((c : MapleCredential) × IsTrusted from_slice plugin (state_of plugin.credential) c
            × (target.metrics_endpoint ≡ some (Text.◌++◌ c.endpoint "/v1/metrics"))
            × (target.logs_endpoint ≡ some (Text.◌++◌ c.endpoint "/v1/logs")))
  unfolding prepare_maple reject_otel_overrides exporter_config
  prepare_maple-IsTrusted plugin target h =
      let variables = override_variables in
      let (_, v, k) = >>=-eq-ok (ensure (not (any is_set variables)) TargetError.overridden) _ h in
      let (c, l, e) =
        >>=-eq-ok
          (load_credential from_slice (state_of plugin.credential) plugin.schema plugin.producer) _
          k in
      let trusted = load_credential-IsTrusted (state_of plugin.credential) plugin c l in
      let made : exporter_config base64 c ≡ target = cc in
      let kept = authority_kept c.endpoint trusted.endpoint in
      let unset = true_of_ensure (not (any is_set variables)) TargetError.overridden v in
      (
        false_of_not (any is_set variables) unset,
        (
          c,
          trusted,
          ap (λ (t : PreparedOtlpTarget). t.metrics_endpoint) (sym made)
              ∙ ap (λ x. some (Text.◌++◌ x "/v1/metrics")) kept,
          ap (λ (t : PreparedOtlpTarget). t.logs_endpoint) (sym made)
              ∙ ap (λ x. some (Text.◌++◌ x "/v1/logs")) kept,
        ),
      )
