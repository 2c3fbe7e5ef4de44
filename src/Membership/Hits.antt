-- ===== src/Membership/Hits.antt =====
-- What the cached source of server/internal/core/membership/cachedsource.go answers, and what it
-- leaves in its table.
use mathlib.Core.Path.{subst}
use ouro_pass.Base.{
  ◌==◌, ==_iff, Bool-cases, Option-cases, some_injective, Text, is_empty, ℕ, ◌+◌, ◌≡◌, refl, sym,
  ap, ◌∙◌, ◌⊎◌, inl, inr, true, false, Option, none, some, arith,
}
use ouro_pass.Chain.Epoch.{current_epoch}
use ouro_pass.Membership.{Snapshot}
use ouro_pass.Membership.Cache.{snapshot_to_cache, cached_to_snapshot}
use ouro_pass.Membership.Source.{hit_of, label, look_up, remember, fetch, or_fetch, snapshot}
use ouro_pass.Store.Domain.{StakeSnapshotCache, Db}
use ouro_pass.Store.Exec.{
  chain_error, Result, ok, Env, World, next, pure, ◌>>=◌, ok_injective, ignore, attempt, bind-ok,
  now, query, exec,
}
use ouro_pass.Outside.{ask}
use ouro_pass.Store.Snapshots.{find_cell}
use ouro_pass.Membership.Cells.{find_cell-upsert_rows, find_cell-delete}
use ouro_pass.Store.Snapshots

module _ (network : Text) where
  -- What the table has of a fetched snapshot after the statement that stores or removes it.
  abbrev pub Kept : Option ℕ → Text → Snapshot → Db → Type 0
  Kept e sch s after =
      (is_empty s.active_stake_pool_id ≡ true → find_cell sch network after.snapshots ≡ none)
      × (is_empty s.active_stake_pool_id ≡ false
          → find_cell s.stake_credential_hash network after.snapshots
            ≡ some (snapshot_to_cache s network (label e s)))

module _ (env : Env) (network : Text) where
  -- The epoch at the time that a call reads first.
  abbrev pub present : World Db → Option ℕ
  present w = current_epoch network (env.time w.tick)

  -- The answer was in the table, under the present epoch.
  pub record Hit (sch : Text) (s : Snapshot) (before after : World Db) : Type 0 where
    pub epoch : ℕ
    pub row : StakeSnapshotCache
    pub known : present before ≡ some epoch
    pub stored : find_cell sch network before.db.snapshots ≡ some row
    pub labelled : row.snapshot_epoch ≡ epoch
    pub made : cached_to_snapshot sch epoch row ≡ s
    pub same : after.db ≡ before.db

module _ (env : Env) (inner : ℕ → Text → Option Snapshot) (network : Text) where
  -- A row under the present epoch is passed over only if its read failed.
  abbrev pub Missed : Text → World Db → Type 0
  Missed sch before =
      (e : ℕ) (row : StakeSnapshotCache)
      → present env network before ≡ some e
      → find_cell sch network before.db.snapshots ≡ some row
      → row.snapshot_epoch ≡ e
      → env.fault (before.tick + 1) ≡ true

  -- The answer is that of the wrapped source, asked in the last interaction but one; the last is the
  -- statement on the table, which fails or keeps what it should.
  pub record Fetched (sch : Text) (s : Snapshot) (before after : World Db) : Type 0 where
    pub asked : ℕ
    pub answer : inner asked sch ≡ some s
    pub ended : after.tick ≡ asked + 2
    pub missed : Missed sch before
    pub kept :
        ((env.fault (asked + 1) ≡ true) × (after.db ≡ before.db))
        ⊎ Kept network (present env network before) sch s after.db
    pub others : after.db ≡ record before.db { snapshots = after.db.snapshots }

  remember-Kept :
      (e : Option ℕ) (sch : Text) (s : Snapshot) (w : World Db)
      → (((env.fault w.tick ≡ true) × ((remember env inner network e sch s w).1.db ≡ w.db))
          ⊎ Kept network e sch s (remember env inner network e sch s w).1.db)
        × ((remember env inner network e sch s w).1.db
            ≡ record w.db { snapshots = (remember env inner network e sch s w).1.db.snapshots })
        × ((remember env inner network e sch s w).1.tick ≡ w.tick + 1)
  unfolding remember snapshot_to_cache ignore Snapshots.upsert Snapshots.delete exec
  remember-Kept e sch s w = elim (Bool-cases (is_empty s.active_stake_pool_id)) [
    | inl nowhere ↦ rw nowhere (elim (Bool-cases (env.fault w.tick)) [
      | inl f ↦ rw f (inl (refl, refl), refl, refl)
      | inr fine ↦
          rw fine
            (inr (λ _. find_cell-delete sch network w.db.snapshots, λ k. absurd (cc)), refl, refl)
    ])
    | inr somewhere ↦ rw somewhere (elim (Bool-cases (env.fault w.tick)) [
      | inl f ↦ rw f (inl (refl, refl), refl, refl)
      | inr fine ↦ rw fine (
        inr (
          λ k. absurd (cc),
          λ _. find_cell-upsert_rows (snapshot_to_cache s network (label e s)) w.db.snapshots,
        ),
        refl,
        refl,
      )
    ])
  ]

  -- What a fetch does after the clock and the table have been read.
  pub record Got (e : Option ℕ) (sch : Text) (s : Snapshot) (before after : World Db) : Type 0 where
    pub answer : inner before.tick sch ≡ some s
    pub ended : after.tick ≡ before.tick + 1 + 1
    pub kept :
        ((env.fault (before.tick + 1) ≡ true) × (after.db ≡ before.db))
        ⊎ Kept network e sch s after.db
    pub others : after.db ≡ record before.db { snapshots = after.db.snapshots }

  asked-next :
      (sch : Text) (w : World Db) (a : Snapshot) (w1 : World Db)
      → ask (λ n. inner n sch) chain_error w ≡ (ok a, w1)
      → (inner w.tick sch ≡ some a) × (w1 ≡ next w)
  unfolding ask
  asked-next sch w a w1 h = ground arith

  fetch-Got :
      (e : Option ℕ) (sch : Text) (s : Snapshot) (w w' : World Db)
      → fetch env inner network e sch w ≡ (ok s, w')
      → Got e sch s w w'
  unfolding fetch
  fetch-Got e sch s w w' h =
      let (a, w1, asked, rest) =
        bind-ok (ask (λ n. inner n sch) chain_error)
          (λ a. remember env inner network e sch a >>= λ _. pure a) w s w' h in
      let (answer, later) = asked-next sch w a w1 asked in
      let (u, w2, wrote, end) =
        bind-ok (remember env inner network e sch a) (λ _. pure a) w1 s w' rest in
      let made : a ≡ s = ok_injective (ap (λ (x : Result Snapshot × World Db). x.0) end) in
      let same : w2 ≡ w' = ap (λ (x : Result Snapshot × World Db). x.1) end in
      let to : (remember env inner network e sch a (next w)).1 ≡ w' =
        ap (λ (x : World Db). (remember env inner network e sch a x).1) (sym later)
        ∙ ap (λ (x : Result (Unit {0}) × World Db). x.1) wrote
        ∙ same in
      let (kept, others, ticks) = remember-Kept e sch a (next w) in
      subst (λ (x : Snapshot). Got e sch x w w') made
        (subst (Got e sch a w) to
          (record { answer = answer; ended = ticks; kept = kept; others = others }))

  hit-at :
      (sch : Text) (e : ℕ) (s : Snapshot) (row : StakeSnapshotCache)
      → hit_of sch e (ok row) ≡ some s
      → (row.snapshot_epoch ≡ e) × (cached_to_snapshot sch e row ≡ s)
  hit-at sch e s row h = elim (Bool-cases (row.snapshot_epoch == e)) [
    | inl hit ↦ ((==_iff row.snapshot_epoch e).0 hit, some_injective (rw hit at h))
    | inr miss ↦ absurd (ground (arith, miss, h))
  ]

  look_up_at :
      (e : ℕ) (sch : Text) (s : Snapshot) (w w' : World Db)
      → look_up env inner network (some e) sch w ≡ (ok (some s), w')
      → (row : StakeSnapshotCache) × (find_cell sch network w.db.snapshots ≡ some row)
        × (hit_of sch e (ok row) ≡ some s)
  unfolding look_up attempt Snapshots.get query ◌>>=◌
  look_up_at e sch s w w' h = elim (Bool-cases (env.fault w.tick)) [
    | inl f ↦ absurd (ground (arith, f, h))
    | inr fine ↦ elim (Option-cases (find_cell sch network w.db.snapshots)) [
      | inl missing ↦ absurd (ground (arith, fine, missing, h))
      | inr (row, there) ↦ (
        row,
        there,
        ok_injective
            (ap (λ (x : Result (Option Snapshot) × World Db). x.0) (rw (fine, there) at h)),
      )
    ]
  ]

  look_up-missed :
      (e : ℕ) (sch : Text) (row : StakeSnapshotCache) (w w' : World Db)
      → look_up env inner network (some e) sch w ≡ (ok none, w')
      → find_cell sch network w.db.snapshots ≡ some row
      → row.snapshot_epoch ≡ e
      → env.fault w.tick ≡ true
  unfolding look_up attempt Snapshots.get query ◌>>=◌
  look_up-missed e sch row w w' h there own = elim (Bool-cases (env.fault w.tick)) [
    | inl f ↦ f
    | inr fine ↦
        let hit : (row.snapshot_epoch == e) ≡ true = (==_iff row.snapshot_epoch e).1 own in
        absurd (ground (arith, fine, there, hit, h))
  ]

  look_up-same :
      (e : Option ℕ) (sch : Text) (o : Option Snapshot) (w w' : World Db)
      → look_up env inner network e sch w ≡ (ok o, w')
      → w'.db ≡ w.db
  unfolding look_up attempt Snapshots.get query ◌>>=◌
  look_up-same none sch o w w' h = ground arith
  look_up-same (some e) sch o w w' h = ground arith

  unknown-miss :
      (sch : Text) (s : Snapshot) (w w' : World Db)
      → look_up env inner network none sch w ≡ (ok (some s), w')
      → ⊥
  unfolding look_up
  unknown-miss sch s w w' h = ground arith

  look_up-Hit :
      (sch : Text) (s : Snapshot) (w w' : World Db)
      → look_up env inner network (present env network w) sch (next w) ≡ (ok (some s), w')
      → Hit env network sch s w w'
  look_up-Hit sch s w w' h = elim (Option-cases (present env network w)) [
    | inl unknown ↦ absurd (unknown-miss sch s (next w) w' (rw unknown at h))
    | inr (e, known) ↦
        let (row, there, made) = look_up_at e sch s (next w) w' (rw known at h) in
        let (label, result) = hit-at sch e s row made in
        record {
          epoch = e;
          row = row;
          known = known;
          stored = there;
          labelled = label;
          made = result;
          same = look_up-same (present env network w) sch (some s) (next w) w' h;
        }
  ]

  look_up-Missed :
      (sch : Text) (w w' : World Db)
      → look_up env inner network (present env network w) sch (next w) ≡ (ok none, w')
      → Missed sch w
  look_up-Missed sch w w' h e row known there own =
      look_up-missed e sch row (next w) w' (rw known at h) there own

  -- Whatever the source answers was in the table under the epoch of the time that the call reads
  -- first, and then no table changes; or it is what the wrapped source answered, and then the table
  -- had no row of the present epoch, or its read failed, and no table but the cache changes: there an
  -- active snapshot is stored under its credential and the epoch, and for any other the row of the
  -- credential is gone, unless that statement, the last of the call, failed.
  pub snapshot-Served :
      (sch : Text) (s : Snapshot) (w w' : World Db)
      → snapshot env inner network sch w ≡ (ok s, w')
      → Hit env network sch s w w' ⊎ Fetched sch s w w'
  unfolding snapshot now ◌>>=◌
  snapshot-Served sch s w w' h =
      let e = present env network w in
      let (o, w2, looked, end) =
        bind-ok (look_up env inner network e sch) (or_fetch env inner network e sch) (next w) s w'
          h in
      served o w2 looked (look_up-same e sch o (next w) w2 looked) end
    where
      served :
          (o : Option Snapshot) (w2 : World Db)
          → look_up env inner network (present env network w) sch (next w) ≡ (ok o, w2)
          → w2.db ≡ w.db
          → or_fetch env inner network (present env network w) sch o w2 ≡ (ok s, w')
          → Hit env network sch s w w' ⊎ Fetched sch s w w'
      served none w2 looked same end =
          let got = fetch-Got (present env network w) sch s w2 w' end in
          inr (record {
            asked = w2.tick;
            answer = got.answer;
            ended = got.ended ∙ omega arith;
            missed = look_up-Missed sch w w2 looked;
            kept = elim (got.kept) [
              | inl (failed, unchanged) ↦ inl (failed, unchanged ∙ same)
              | inr k ↦ inr k
            ];
            others = rw same at got.others;
          })
      served (some a) w2 looked same end =
          let made : a ≡ s = ok_injective (ap (λ (x : Result Snapshot × World Db). x.0) end) in
          let last : w2 ≡ w' = ap (λ (x : Result Snapshot × World Db). x.1) end in
          inl (
            subst (λ (x : Snapshot). Hit env network sch x w w') made
              (subst (Hit env network sch a w) last (look_up-Hit sch a w w2 looked)))
