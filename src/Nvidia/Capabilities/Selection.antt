-- ===== src/Nvidia/Capabilities/Selection.antt =====
-- Which rule is kept for a key: that of the most specific profile that matches, and no other
-- capability of a matching profile has that key and that specificity.
use spark_signals.Prelude.{
  ℕ, ◌<◌, String, ◌≡◌, ◌⊎◌, refl, sym, ap, subst, ◌∙◌, Bool, true, false, ◌||◌, not, Option, none,
  some, List, [], ◌∷◌, map, keep, ltb, eqb, ok, ok_or, ensure, >>=-eq-ok, some_of_ok_or, arith,
  if◌then◌else◌, Bool-cases, inl, inr, map_or, unwrap_or,
}
use spark_signals.Order.{text_ord, pair_ord, list_ord}
use spark_signals.BTreeMap.{BTreeMap, get, insert, contains}
use spark_signals.Text.{is_empty}
use spark_signals.Directory.{File, collect, sort, is_toml}
use spark_signals.Nvidia.Capabilities.Profiles.{
  CapabilityKey, capability_ord, CapabilityRule, HardwareIdentity, HardwareProfile,
  ProfileCapability, ProfileFile, ProfileError, matches, specificity, key, Choice, Selected, choose,
  select, select_all, Loading, add_profile, add_profiles, load_file, load_files, load_directory,
  validate_selector, validate_all, is_given, install,
}
use spark_signals.Nvidia.Capabilities.Best.{IsBest, Beats, IsBest-insert, IsBest-kept}

abbrev pub Candidate : Type 0
Candidate = CapabilityKey × Choice

abbrev pub choice_of : ℕ → String → ProfileCapability → Choice
choice_of s profile c = record {
  specificity = s;
  rule = record { policy = c.policy; reason = c.reason };
  profile = profile;
}

-- The candidates of a profile, before those seen already.
abbrev pub offered : ℕ → String → List Candidate → List ProfileCapability → List Candidate
offered s profile seen [] = seen
offered s profile seen (c ∷ capabilities) =
    offered s profile ((key c, choice_of s profile c) ∷ seen) capabilities

-- The candidates of the profiles that match.
abbrev pub offers : HardwareIdentity → List Candidate → List HardwareProfile → List Candidate
offers identity seen [] = seen
offers identity seen (p ∷ profiles) =
    offers identity
      (if matches p.selector identity
        then offered (specificity p.selector) p.id seen p.capability
        else seen)
      profiles

chosen_if :
    (x : Choice) (selected next : Selected) (k : CapabilityKey) (c : Choice)
    → choose (some x) selected k c ≡ ok next
    → ((x.specificity < c.specificity) × (insert k c selected ≡ next))
      ⊎ ((c.specificity < x.specificity) × (selected ≡ next))
chosen_if x selected next k c h = elim (Bool-cases (eqb x.specificity c.specificity)) [
  | inl same ↦ ground (arith, same, h)
  | inr other ↦ elim (Bool-cases (ltb c.specificity x.specificity)) [
    | inl less ↦ inr (ground arith, ground (arith, other, less, h))
    | inr more ↦ inl (ground arith, ground (arith, other, more, h))
  ]
]

chosen :
    (seen : List Candidate) (selected next : Selected) (k : CapabilityKey) (c : Choice)
    (kept : Option Choice)
    → IsBest seen selected
    → get k selected ≡ kept
    → choose kept selected k c ≡ ok next
    → IsBest ((k, c) ∷ seen) next
chosen seen selected next k c none b h e =
    let same : insert k c selected ≡ next = cc in
    subst (IsBest ((k, c) ∷ seen)) same
      (IsBest-insert seen selected k c b (subst (Beats seen selected k c b) (sym h) tt))
chosen seen selected next k c (some x) b h e = elim (chosen_if x selected next k c e) [
  | inl (less, same) ↦
      subst (IsBest ((k, c) ∷ seen)) same
        (IsBest-insert seen selected k c b (subst (Beats seen selected k c b) (sym h) less))
  | inr (less, same) ↦
      subst (IsBest ((k, c) ∷ seen)) same (IsBest-kept seen selected k c b x h less)
]

select_all-IsBest :
    (s : ℕ) (profile : String) (seen : List Candidate) (selected next : Selected)
    (capabilities : List ProfileCapability)
    → IsBest seen selected
    → select_all s profile selected capabilities ≡ ok next
    → IsBest (offered s profile seen capabilities) next
unfolding select_all select
select_all-IsBest s profile seen selected next [] b h =
    let same : selected ≡ next = cc in subst (IsBest seen) same b
select_all-IsBest s profile seen selected next (c ∷ capabilities) b h =
    let (middle, first, rest) = >>=-eq-ok (select selected (key c) (choice_of s profile c)) _ h in
    select_all-IsBest s profile ((key c, choice_of s profile c) ∷ seen) middle next capabilities
      (chosen seen selected middle (key c) (choice_of s profile c) (get (key c) selected) b refl
        first)
      rest

install-IsBest :
    (matching : Bool) (seen : List Candidate) (state next : Loading) (p : HardwareProfile)
    → IsBest seen state.selected
    → install matching state p ≡ ok next
    → IsBest
        (if matching then offered (specificity p.selector) p.id seen p.capability else seen)
        next.selected
install-IsBest false seen state next p b h =
    let same : state ≡ next = cc in subst (λ (l : Loading). IsBest seen l.selected) same b
install-IsBest true seen state next p b h =
    let (selected, s, k) =
      >>=-eq-ok (select_all (specificity p.selector) p.id state.selected p.capability) _ h in
    let same : record state { selected = selected } ≡ next = cc in
    subst
      (λ (l : Loading). IsBest (offered (specificity p.selector) p.id seen p.capability) l.selected)
      same
      (select_all-IsBest (specificity p.selector) p.id seen state.selected selected p.capability b
        s)

module _ (identity : HardwareIdentity) where
  add_profile-IsBest :
      (seen : List Candidate) (state next : Loading) (p : HardwareProfile)
      → IsBest seen state.selected
      → add_profile identity state p ≡ ok next
      → IsBest (offers identity seen (p ∷ [])) next.selected
  unfolding add_profile
  add_profile-IsBest seen state next p b h =
      let (_, _, k) =
        >>=-eq-ok
          (ensure (not (is_empty p.id || contains p.id state.profile_ids)) ProfileError.bad_id) _
          h in
      let (_, _, l) = >>=-eq-ok (validate_selector p.selector) _ k in
      let (_, _, m) = >>=-eq-ok (ensure (is_given p.capability) ProfileError.no_capabilities) _ l in
      let (_, _, n) = >>=-eq-ok (validate_all p.capability) _ m in
      install-IsBest (matches p.selector identity) seen
        (record state { profile_ids = insert p.id tt state.profile_ids }) next p b n

  add_profiles-IsBest :
      (seen : List Candidate) (state next : Loading) (profiles : List HardwareProfile)
      → IsBest seen state.selected
      → add_profiles identity state profiles ≡ ok next
      → IsBest (offers identity seen profiles) next.selected
  unfolding add_profiles
  add_profiles-IsBest seen state next [] b h =
      let same : state ≡ next = cc in subst (λ (l : Loading). IsBest seen l.selected) same b
  add_profiles-IsBest seen state next (p ∷ profiles) b h =
      let (middle, first, rest) = >>=-eq-ok (add_profile identity state p) _ h in
      add_profiles-IsBest (offers identity seen (p ∷ [])) middle next profiles
        (add_profile-IsBest seen state middle p b first) rest

  module _ (from_str : String → Option ProfileFile) where
    -- The profiles that a file holds, none if it cannot be read or decoded.
    abbrev pub profiles_in : File → List HardwareProfile
    profiles_in file = map_or file.text [] (λ raw. unwrap_or (from_str raw) [])

    profiles_held :
        (file : File) (raw : String) (profiles : List HardwareProfile)
        → file.text ≡ some raw
        → from_str raw ≡ some profiles
        → profiles_in file ≡ profiles
    profiles_held file raw profiles r d =
        ap (λ t. map_or t [] (λ x. unwrap_or (from_str x) [])) r ∙ ap (λ x. unwrap_or x []) d

    abbrev pub offers_of : List Candidate → List File → List Candidate
    offers_of seen [] = seen
    offers_of seen (file ∷ files) = offers_of (offers identity seen (profiles_in file)) files

    load_file-IsBest :
        (seen : List Candidate) (state next : Loading) (file : File)
        → IsBest seen state.selected
        → load_file from_str identity state file ≡ ok next
        → IsBest (offers identity seen (profiles_in file)) next.selected
    unfolding load_file
    load_file-IsBest seen state next file b h =
        let (raw, r, k) = >>=-eq-ok (ok_or file.text ProfileError.reading_file) _ h in
        let (profiles, q, l) = >>=-eq-ok (ok_or (from_str raw) ProfileError.parsing_file) _ k in
        let (_, _, m) = >>=-eq-ok (ensure (is_given profiles) ProfileError.no_profiles) _ l in
        let read = some_of_ok_or file.text ProfileError.reading_file r in
        let decoded = some_of_ok_or (from_str raw) ProfileError.parsing_file q in
        let held = profiles_held file raw profiles read decoded in
        subst (λ ps. IsBest (offers identity seen ps) next.selected) (sym held)
          (add_profiles-IsBest seen state next profiles b m)

    load_files-IsBest :
        (seen : List Candidate) (state next : Loading) (files : List File)
        → IsBest seen state.selected
        → load_files from_str identity state files ≡ ok next
        → IsBest (offers_of seen files) next.selected
    unfolding load_files
    load_files-IsBest seen state next [] b h =
        let same : state ≡ next = cc in subst (λ (l : Loading). IsBest seen l.selected) same b
    load_files-IsBest seen state next (file ∷ files) b h =
        let (middle, first, rest) = >>=-eq-ok (load_file from_str identity state file) _ h in
        load_files-IsBest (offers identity seen (profiles_in file)) middle next files
          (load_file-IsBest seen state middle file b first) rest

    IsBest-nil : IsBest {K = CapabilityKey} [] []
    unfolding get
    IsBest-nil = record {
      listed = λ k c h. cc;
      most_specific = λ k d m. elim m [ ];
      only = λ k c d h m e. elim m [ ];
    }

    -- If the profiles of a directory load, the rule for each key is that of the best candidate of
    -- the profiles that match: it is from one of them, none with the key is more specific, and no
    -- other with the key is equally specific.
    pub load_directory-IsBest :
        (entries : List (Option File)) (files : List File)
        (rules : BTreeMap CapabilityKey CapabilityRule)
        → collect ProfileError.reading_entry entries ≡ ok files
        → load_directory from_str identity (some entries) ≡ ok rules
        → (selected : Selected) × (rules ≡ map (λ e. (e.0, e.1.rule)) selected)
          × IsBest (offers_of [] (sort (keep (λ file. is_toml file.name) files))) selected
    unfolding load_directory
    load_directory-IsBest entries files rules c h =
        let start : Loading = record { profile_ids = []; selected = [] } in
        let (found, f, k) = >>=-eq-ok (collect ProfileError.reading_entry entries) _ h in
        let same : found ≡ files = cc in
        let (state, l, e) =
          >>=-eq-ok
            (load_files from_str identity start (sort (keep (λ file. is_toml file.name) found))) _
            k in
        let made : map (λ e. (e.0, e.1.rule)) state.selected ≡ rules = cc in
        (
          state.selected,
          sym made,
          subst
              (λ fs.
                IsBest (offers_of [] (sort (keep (λ file. is_toml file.name) fs))) state.selected)
              same (load_files-IsBest [] start state _ IsBest-nil l),
        )
