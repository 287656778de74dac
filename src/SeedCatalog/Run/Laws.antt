-- ===== src/SeedCatalog/Run/Laws.antt =====
-- How a run counts its files, and when it fails.
use go_folio.Prelude.{
  ◌≡◌, refl, ap, sym, subst, ℕ, suc, ◌+◌, ℤ, Bool, true, false, Option, none, some, List, [], ◌∷◌,
  length, arith, ◌↔◌, if◌then◌else◌, ◌⊎◌, ◌≢◌,
}
use go_folio.SeedCatalog.Client.{World, Config, Client, Outcome, failed, answered}
use go_folio.SeedCatalog.Run.{
  SilverProduct, Verdict, seeded, skipped, not_seeded, Tally, Options, Minio, count, seed_file,
  seed_files, init_minio, no_tally, no_token, finished, started, run,
}

abbrev pub total : Tally → ℕ
total t = t.seeded_count + t.skipped_count + t.failed_count

-- The files that were read and parsed.
abbrev pub readable : List (Option SilverProduct) → ℕ
readable [] = 0
readable (none ∷ fs) = readable fs
readable (some sp ∷ fs) = suc (readable fs)

count-total : (v : Verdict) (t : Tally) → total (count v t) ≡ suc (total t)
unfolding count
count-total seeded t = omega arith
count-total skipped t = omega arith
count-total not_seeded t = omega arith

module _ {W : Type 0} (env : World W) (config : Config) (options : Options) where
  seed_files-total :
      (fs : List (Option SilverProduct)) (t : Tally) (c : Client W)
      → total (seed_files env config options fs (t, c)).0 ≡ total t + length fs
  unfolding seed_files
  seed_files-total [] t c = omega arith
  seed_files-total (f ∷ fs) t c =
      let x = seed_file env config options f c in
      omega (arith, seed_files-total fs (count x.0 t) x.1, count-total x.0 t)

  finished-exit :
      (x : Tally × Client W)
      → let (code, t, w) = finished env config options x in (code ≡ 0) ↔ (t.failed_count ≡ 0)
  unfolding finished
  finished-exit (t, c) = (λ e. ground arith, λ e. ground arith)

  finished-total :
      (fs : List (Option SilverProduct)) (w : W)
      → total
          (finished env config options (
            seed_files env config options fs
              (no_tally env config options, no_token env config options w))).1
        ≡ length fs
  unfolding finished
  finished-total fs w =
      omega
        (arith, seed_files-total fs (no_tally env config options) (no_token env config options w))

  started-counts :
      (fs : List (Option SilverProduct)) (x : Bool × W)
      → x.0 ≡ true
      → let (code, t, w) = started env config options fs x in
        (total t ≡ length fs) × ((code ≡ 0) ↔ (t.failed_count ≡ 0))
  unfolding started
  started-counts fs (true, w) e = (
    finished-total fs w,
    finished-exit (
        seed_files env config options fs
          (no_tally env config options, no_token env config options w)),
  )
  started-counts fs (false, w) e = absurd (cc)

  -- Where files were found, and on no dry run the object store is ready, each file counts once, as
  -- seeded, skipped or failed, and the exit code is 0 exactly where none failed.
  pub run_counts :
      (f : Option SilverProduct) (fs : List (Option SilverProduct)) (minio : Minio W) (w : W)
      → (if options.dry_run then (true, w) else init_minio env config options minio w).0 ≡ true
      → let (code, t, after) = run env config options (f ∷ fs) minio w in
        (total t ≡ suc (length fs)) × ((code ≡ 0) ↔ (t.failed_count ≡ 0))
  unfolding run
  run_counts f fs minio w ready =
      started-counts (f ∷ fs)
        (if options.dry_run then (true, w) else init_minio env config options minio w) ready

  -- How a product counts, by the outcome of its create that left the client at `c1`.
  abbrev pub IsVerdict : Outcome → Client W → Verdict × Client W → Type 0
  IsVerdict outcome c1 r =
      ((r.0 ≡ seeded) × ((id : ℤ) × (outcome ≡ answered 201 id)))
      ⊎ ((r.0 ≡ skipped) × (r.1 ≡ c1) × ((id : ℤ) × (outcome ≡ answered 409 id)))
      ⊎ ((r.0 ≡ not_seeded)
          × (r.1 ≡ c1)
          × (((status : ℕ) × (outcome ≡ failed status))
              ⊎ ((status : ℕ) × (id : ℤ) × (outcome ≡ answered status id)
                  × (status ≢ 201)
                  × (status ≢ 409))))

  abbrev dry : Options
  dry = record options { dry_run = true }

  seed_files-dry :
      (fs : List (Option SilverProduct)) (t : Tally) (c : Client W)
      → let (t', c') = seed_files env config dry fs (t, c) in
        (c' ≡ c)
        × (t'.skipped_count ≡ t.skipped_count)
        × (t'.seeded_count ≡ t.seeded_count + readable fs)
  unfolding seed_files seed_file count
  seed_files-dry [] t c = (refl, refl, omega arith)
  seed_files-dry (none ∷ fs) t c = seed_files-dry fs (count not_seeded t) c
  seed_files-dry (some sp ∷ fs) t c =
      let (same, skips, seeds) = seed_files-dry fs (count seeded t) c in
      (same, skips, omega (arith, seeds))

  IsDry : Options → List (Option SilverProduct) → Minio W → W → Type 0
  IsDry o files minio w =
      let (code, t, after) = run env config o files minio w in
      (after ≡ w)
      × (t.skipped_count ≡ 0)
      × (t.seeded_count ≡ readable files)
      × ((code ≡ 0) ↔ (t.failed_count ≡ 0))

  run-dry :
      (f : Option SilverProduct) (fs : List (Option SilverProduct)) (minio : Minio W) (w : W)
      → IsDry dry (f ∷ fs) minio w
  unfolding run started finished IsDry
  run-dry f fs minio w =
      let (same, skips, seeds) =
        seed_files-dry (f ∷ fs) (no_tally env config options) (no_token env config options w) in
      (
        ap (λ (c : Client W). c.world) same,
        skips,
        omega (arith, seeds),
        finished-exit (
            seed_files env config dry (f ∷ fs)
              (no_tally env config options, no_token env config options w)),
      )

  -- A dry run leaves the world as it was, skips no file, and seeds those that were read and parsed; its
  -- exit code is 0 exactly where no other file is there.
  pub run_dry :
      (f : Option SilverProduct) (fs : List (Option SilverProduct)) (minio : Minio W) (w : W)
      → options.dry_run ≡ true
      → let (code, t, after) = run env config options (f ∷ fs) minio w in
        (after ≡ w)
        × (t.skipped_count ≡ 0)
        × (t.seeded_count ≡ readable (f ∷ fs))
        × ((code ≡ 0) ↔ (t.failed_count ≡ 0))
  unfolding IsDry
  run_dry f fs minio w is_dry =
      subst (λ o. IsDry o (f ∷ fs) minio w) (ap (λ b. record options { dry_run = b }) (sym is_dry))
        (run-dry f fs minio w)
