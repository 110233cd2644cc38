-- ===== src/Verifier/Manifest.antt =====
-- What a clean manifest says of the archive.
use lineagelens.Prelude.{
  ◌≡◌, ◌↔◌, refl, true, some, List, [], ◌∷◌, ◌++◌, arith, eq_iff, any, str_eq, Dict, lookup, All,
  Option-cases, inl, inr,
}
use lineagelens.Chain.{Hashing}
use lineagelens.Verifier.{
  ManifestEntry, Problem, Verifying, entry_problems, manifest_problems, unlisted, verify_manifest,
  is_clean,
}

is_clean-append :
    (ps qs : List Problem)
    → (is_clean (ps ++ qs) ≡ true) ↔ ((is_clean ps ≡ true) × (is_clean qs ≡ true))
is_clean-append [] qs = (λ h. (refl, h), λ h. h.1)
is_clean-append (p ∷ ps) qs = (λ h. absurd (ground arith), λ h. absurd (ground (arith, h.0)))

-- Every file is listed.
abbrev pub AllListed : {T : Type 0} → List ManifestEntry → Dict T → Type 0
AllListed entries [] = Unit
AllListed entries ((path, content) ∷ files) =
    (any (λ (entry : ManifestEntry). str_eq entry.path path) entries ≡ true)
    × AllListed entries files

unlisted_iff :
    {T : Type 0} (entries : List ManifestEntry) (files : Dict T)
    → (is_clean (unlisted entries files) ≡ true) ↔ AllListed entries files
unfolding unlisted
unlisted_iff entries [] = (λ h. tt, λ h. refl)
unlisted_iff entries ((path, content) ∷ files) =
    let rest = unlisted_iff entries files in
    (λ h. (ground arith, rest.0 (ground arith)), λ h. ground (arith, h.0, rest.1 h.1))

module _ {P T : Type 0} (h : Hashing P T) (v : Verifying T) where
  -- The archive has the file of the entry, with the entry's digest and size.
  abbrev pub IsStored : Dict T → ManifestEntry → Type 0
  IsStored files entry =
      (content : T) × (lookup entry.path files ≡ some content)
      × (h.sha256_hex content ≡ entry.sha256)
      × (entry.size_bytes ≡ some (v.size content))

  entry_problems_iff :
      (files : Dict T) (entry : ManifestEntry)
      → (is_clean (entry_problems h v files entry) ≡ true) ↔ IsStored files entry
  unfolding entry_problems
  entry_problems_iff files entry = elim (Option-cases (lookup entry.path files)) [
    | inl missing ↦ (λ c. absurd (ground arith), λ s. absurd (ground (arith, s.1)))
    | inr (content, e) ↦
        let digest = eq_iff (h.sha256_hex content) entry.sha256 in
        elim (Option-cases entry.size_bytes) [
          | inl unsized ↦
              (λ c. absurd (ground (arith, e, unsized)), λ s. absurd (ground (arith, unsized, s.3)))
          | inr (n, sized) ↦ (
            λ c. (content, e, ground (arith, digest), ground (arith, digest)),
            λ s. ground (arith, e, sized, s.1, s.2, s.3, digest),
          )
        ]
  ]

  manifest_problems_iff :
      (files : Dict T) (entries : List ManifestEntry)
      → (is_clean (manifest_problems h v files entries) ≡ true) ↔ All (IsStored files) entries
  unfolding manifest_problems
  manifest_problems_iff files [] = (λ c. tt, λ s. refl)
  manifest_problems_iff files (entry ∷ entries) =
      let both =
        is_clean-append (entry_problems h v files entry) (manifest_problems h v files entries) in
      let first = entry_problems_iff files entry in
      let rest = manifest_problems_iff files entries in
      (λ c. (first.0 (both.0 c).0, rest.0 (both.0 c).1), λ s. both.1 (first.1 s.0, rest.1 s.1))

  -- The manifest is clean exactly when the archive has every file that it lists, with the listed
  -- digest and size, and no file that it does not list.
  pub verify_manifest_iff :
      (files : Dict T) (entries : List ManifestEntry)
      → ((verify_manifest h v files entries).0 ≡ true)
        ↔ (All (IsStored files) entries × AllListed entries files)
  unfolding verify_manifest
  verify_manifest_iff files entries =
      let both = is_clean-append (manifest_problems h v files entries) (unlisted entries files) in
      let stored = manifest_problems_iff files entries in
      let listed = unlisted_iff entries files in
      (
        λ c. (stored.0 (both.0 c).0, listed.0 (both.0 c).1),
        λ s. both.1 (stored.1 s.0, listed.1 s.1),
      )
