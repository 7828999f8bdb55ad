-- ===== src/ReleaseGate/Scan/Attributed.antt =====
-- baseline-scan.mjs, `attribute`: what it means that a release is found, and that none is.
use mathlib.Core.Bool.{false≢true}
use polkadot_pop_e2e.Common.{
  ◌≢◌, sym, ◌∙◌, eqb_refl, ok-injective, ◌≡◌, refl, ◌⊎◌, inl, inr, arith, String, true, false, not,
  ◌&&◌, Option, none, some, List, [], ◌∷◌, ◌==◌, eqb, length, All, First, ok, bind-eq-ok,
  test-eq-ok, choice-eq-ok, Object, Bool-cases, Option-cases, eq_iff, eqb→eq,
}
use polkadot_pop_e2e.ChainTests.Bytes.{Bytes}
use polkadot_pop_e2e.ReleaseGate.Wasm.{same_bytes}
use polkadot_pop_e2e.ReleaseGate.Scan.{
  Live, Asset, Release, Io, release_walk, spec_matches, is_live, named_asset, is_live_asset,
  is_live_release, first_live, attribute,
}

same_bytes→eq : (a b : Bytes) → same_bytes a b ≡ true → a ≡ b
same_bytes→eq [] [] h = refl
same_bytes→eq (x ∷ a) (y ∷ b) h = ground (arith, same_bytes→eq a b, eqb→eq x y)
same_bytes→eq [] (y ∷ b) h = cc
same_bytes→eq (x ∷ a) [] h = cc

-- The blob is the live one: byte by byte under the policy `bytes`, by its declared version else.
abbrev pub IsLive : Io → String → Live → Bytes → Type 0
IsLive io policy live bytes =
    (policy ≡ "bytes") × (bytes ≡ live.code)
    ⊎ ((policy == "bytes") ≡ false) × (spec_matches io bytes live ≡ true)

-- A release that carries an asset of this name, of which the downloaded bytes are live.
pub record Carries (io : Io) (policy : String) (live : Live) (name : String) (release : Release)
    : Type 0 where
  pub asset : Asset
  pub bytes : Bytes
  pub is_named : named_asset io release name ≡ some asset
  pub is_downloaded : io.download_asset_bytes asset ≡ ok bytes
  pub same : IsLive io policy live bytes

-- A release without an asset of this name, with one of another size under `bytes`, or with one of
-- which the downloaded bytes are not live.
pub data IsPassed (io : Io) (policy : String) (live : Live) (name : String) (release : Release)
    : Type 0 where
  no_asset : named_asset io release name ≡ none → IsPassed io policy live name release
  other_size :
      (asset : Asset)
      → named_asset io release name ≡ some asset
      → policy ≡ "bytes"
      → asset.size ≢ length live.code
      → IsPassed io policy live name release
  not_live :
      (asset : Asset) (bytes : Bytes)
      → named_asset io release name ≡ some asset
      → io.download_asset_bytes asset ≡ ok bytes
      → ¬ IsLive io policy live bytes
      → IsPassed io policy live name release

same_bytes_refl : (a : Bytes) → same_bytes a a ≡ true
same_bytes_refl [] = refl
same_bytes_refl (x ∷ a) = ground (arith, eqb_refl x, same_bytes_refl a)

module _ (io : Io) (policy : String) (live : Live) where
  is_live-false :
      (bytes : Bytes) → is_live io policy live bytes ≡ false → ¬ IsLive io policy live bytes
  is_live-false bytes h (inl (is_bytes, same)) =
      let named = (eq_iff policy "bytes").1 is_bytes in
      let compared : same_bytes bytes live.code ≡ false = rw (named, is_live) at h in
      let equal : same_bytes bytes live.code ≡ true = rw same (same_bytes_refl live.code) in
      false≢true (sym compared ∙ equal)
  is_live-false bytes h (inr (other, matches)) =
      let compared : spec_matches io bytes live ≡ false = rw (other, is_live) at h in
      false≢true (sym compared ∙ matches)

  is_live-IsLive :
      (bytes : Bytes) → is_live io policy live bytes ≡ true → IsLive io policy live bytes
  is_live-IsLive bytes h = elim (Bool-cases (policy == "bytes")) [
    | inl e ↦
        inl ((eq_iff policy "bytes").0 e, same_bytes→eq bytes live.code (rw (e, is_live) at h))
    | inr e ↦ inr (e, rw (e, is_live) at h)
  ]

  is_live_asset-live :
      (asset : Asset)
      → is_live_asset io policy live asset ≡ ok true
      → (bytes : Bytes) × (io.download_asset_bytes asset ≡ ok bytes) × IsLive io policy live bytes
  is_live_asset-live asset h =
      elim (Bool-cases (policy == "bytes" && not (eqb asset.size (length live.code)))) [
        | inl e ↦
            let q : ok false ≡ ok true = rw (e, is_live_asset) at h in
            absurd (false≢true (ok-injective q))
        | inr e ↦
            let (bytes, here, same) =
              bind-eq-ok (io.download_asset_bytes asset)
                (λ bytes. ok (is_live io policy live bytes)) (rw (e, is_live_asset) at h) in
            (bytes, here, is_live-IsLive bytes (ok-injective same))
      ]

  is_live_release-Carries :
      (name : String) (release : Release)
      → is_live_release io policy live name release ≡ ok true
      → Carries io policy live name release
  is_live_release-Carries name release h = elim (Option-cases (named_asset io release name)) [
    | inl e ↦
        let q : ok false ≡ ok true = rw (e, is_live_release) at h in
        absurd (false≢true (ok-injective q))
    | inr (asset, e) ↦
        let (bytes, here, same) = is_live_asset-live asset (rw (e, is_live_release) at h) in
        record { asset = asset; bytes = bytes; is_named = e; is_downloaded = here; same = same }
  ]

  abbrev IsFound : String → String → Release → Type 0
  IsFound name tag release = (release.tag_name ≡ tag) × Carries io policy live name release

  is_live_release-IsPassed :
      (name : String) (release : Release)
      → is_live_release io policy live name release ≡ ok false
      → IsPassed io policy live name release
  is_live_release-IsPassed name release h = elim (Option-cases (named_asset io release name)) [
    | inl e ↦ no_asset e
    | inr (asset, e) ↦
        let k : is_live_asset io policy live asset ≡ ok false = rw (e, is_live_release) at h in
        elim (Bool-cases (policy == "bytes" && not (eqb asset.size (length live.code)))) [
          | inl other ↦
              other_size asset e ((eq_iff policy "bytes").0 (ground arith)) (λ same. ground arith)
          | inr near ↦
              let (bytes, here, differs) =
                bind-eq-ok (io.download_asset_bytes asset)
                  (λ bytes. ok (is_live io policy live bytes)) (rw (near, is_live_asset) at k) in
              not_live asset bytes e here (is_live-false bytes (ok-injective differs))
        ]
  ]

  -- The result of the walk through the releases of one repository.
  abbrev Walks : String → List Release → Option String → Type 0
  Walks name releases (some tag) = First (IsPassed io policy live name) (IsFound name tag) releases
  Walks name releases none = All (IsPassed io policy live name) releases

  Walks-on :
      (name : String) (release : Release) (more : List Release) (found : Option String)
      → IsPassed io policy live name release
      → Walks name more found
      → Walks name (release ∷ more) found
  Walks-on name release more (some tag) passed h = inr (passed, h)
  Walks-on name release more none passed h = (passed, h)

  first_live-Walks :
      (name : String) (releases : List Release) (found : Option String)
      → first_live io policy live name releases ≡ ok found
      → Walks name releases found
  first_live-Walks name [] found h = let same : found ≡ none = cc in rw same tt
  first_live-Walks name (release ∷ more) found h =
      elim (test-eq-ok (is_live_release io policy live name release) (ok (some release.tag_name))
        (first_live io policy live name more) h) [
          | inl (here, last) ↦
              let same : found ≡ some release.tag_name = cc in
              rw same (inl (refl, is_live_release-Carries name release here))
          | inr (passed, later) ↦
              Walks-on name release more found (is_live_release-IsPassed name release passed)
                (first_live-Walks name more found later)
        ]

-- A repository whose releases were listed, with the result of the walk.
pub record IsWalked (io : Io) (policy : String) (live : Live) (found : Option String)
    (source : String × String) : Type 0 where
  pub releases : List Release
  pub are_listed : io.list_releases source.0 release_walk ≡ ok releases
  pub walks : Walks io policy live source.1 releases found

abbrev pub IsAttributed : Io → String → Live → Object String → Option (String × String) → Type 0
IsAttributed io policy live sources none = All (IsWalked io policy live none) sources
IsAttributed io policy live sources (some (repo, tag)) =
    First (IsWalked io policy live none)
      (λ source. (source.0 ≡ repo) × IsWalked io policy live (some tag) source) sources

IsAttributed-on :
    (io : Io) (policy : String) (live : Live) (source : String × String) (sources : Object String)
    (found : Option (String × String))
    → IsWalked io policy live none source
    → IsAttributed io policy live sources found
    → IsAttributed io policy live (source ∷ sources) found
IsAttributed-on io policy live source sources none walked h = (walked, h)
IsAttributed-on io policy live source sources (some found) walked h = inr (walked, h)

-- `attribute` goes through the allowed repositories, and the listed releases of each, in their order.
-- Where it names a release, that is the first one with the asset of the chain whose downloaded bytes
-- are live: byte by byte under the policy `bytes`, by its declared version otherwise; the releases
-- before it in the repository, and all of the repositories before, were passed. Where it names none,
-- the listed releases of every repository were passed. A release is passed that has no such asset,
-- one of another size under `bytes`, or one whose bytes are not live.
pub attribute-IsAttributed :
    (io : Io) (policy : String) (live : Live) (sources : Object String)
    (found : Option (String × String))
    → attribute io sources live policy ≡ ok found
    → IsAttributed io policy live sources found
unfolding attribute
attribute-IsAttributed io policy live [] found h = let same : found ≡ none = cc in rw same tt
attribute-IsAttributed io policy live ((repo, name) ∷ sources) found h =
    let (releases, listed, a) = bind-eq-ok (io.list_releases repo release_walk) _ h in
    elim (choice-eq-ok (first_live io policy live name releases) (λ tag. ok (some (repo, tag)))
      (attribute io sources live policy) a) [
        | inl (tag, walked, last) ↦
            let same : found ≡ some (repo, tag) = cc in
            rw same (
              inl (
                refl,
                record {
                  releases = releases;
                  are_listed = listed;
                  walks = first_live-Walks io policy live name releases (some tag) walked;
                },
              ))
        | inr (passed, later) ↦
            IsAttributed-on io policy live (repo, name) sources found
              (record {
                releases = releases;
                are_listed = listed;
                walks = first_live-Walks io policy live name releases none passed;
              })
              (attribute-IsAttributed io policy live sources found later)
      ]
