-- ===== src/Store/Grants/Visit.antt =====
-- The ids that the loop of `RevokeChain` visits, in server/internal/store/repo_refreshgrant.go.
use ouro_pass.Base.{
  if◌then◌else◌, Bool-cases, length, In, In-append_left, In-append_right, Text, text_eq,
  text_eq_sound, text_eq_complete, ℕ, zero, suc, ◌^◌, ◌≤◌, ◌≡◌, refl, sym, ap, ◌∙◌, ◌↔◌, ◌⊎◌, inl,
  inr, some, List, [], ◌∷◌, ◌++◌, arith,
}
use ouro_pass.Store.Table.{find, update, update_found, find-update, find-key}
use ouro_pass.Store.Domain.{GrantStatus, grant_revoked, RefreshGrant}
use ouro_pass.Store.Grants.{grant_id, has_id, with_status, children}
use ouro_pass.Store.Grants.Forest.{
  IsForest, size, sizes, sizes-append, size-le, size_pos, ids, sizes-children,
}

-- A grant descends from another by rotations that the table records.
pub data Descends (rows : List RefreshGrant) (start : Text) : Text → Type 0 where
  self : Descends rows start start
  rotated :
      {id child : Text}
      → Descends rows start id
      → In child (children id rows)
      → Descends rows start child

-- The ids that the loop takes off its queue, in order.
unfoldable pub visit : ℕ → List Text → List RefreshGrant → List Text
visit fuel [] rows = []
visit zero (cur ∷ ids) rows = []
visit (suc fuel) (cur ∷ ids) rows = cur ∷ visit fuel (ids ++ children cur rows) rows

unfoldable pub revoke_each : List Text → List RefreshGrant → List RefreshGrant
revoke_each [] rows = rows
revoke_each (id ∷ ids) rows = revoke_each ids (update (has_id id) (with_status grant_revoked) rows)

pub children-update :
    (id cur : Text) (s : GrantStatus) (rows : List RefreshGrant)
    → children id (update (has_id cur) (with_status s) rows) ≡ children id rows
unfolding children update
children-update id cur s [] = refl
children-update id cur s (g ∷ rows) = ground (arith, children-update id cur s rows)

pub visit-update :
    (fuel : ℕ) (queue : List Text) (cur : Text) (s : GrantStatus) (rows : List RefreshGrant)
    → visit fuel queue (update (has_id cur) (with_status s) rows) ≡ visit fuel queue rows
unfolding visit
visit-update fuel [] cur s rows = refl
visit-update zero (x ∷ queue) cur s rows = refl
visit-update (suc fuel) (x ∷ queue) cur s rows =
    rw (children-update x cur s rows)
      (ap (λ (t : List Text). x ∷ t) (visit-update fuel (queue ++ children x rows) cur s rows))

-- With fuel for the queue, all of the queue is visited, and with an id its children.
queue-visited :
    (fuel : ℕ) (queue : List Text) (rows : List RefreshGrant) (x : Text)
    → IsForest rows
    → sizes rows queue ≤ fuel
    → In x queue
    → In x (visit fuel queue rows)
unfolding visit sizes
queue-visited fuel [] rows x f h m = absurd m
queue-visited zero (cur ∷ queue) rows x f h m = absurd (omega (arith, size_pos rows cur))
queue-visited (suc fuel) (cur ∷ queue) rows x f h (inl e) = inl e
queue-visited (suc fuel) (cur ∷ queue) rows x f h (inr m) = inr (
    queue-visited fuel (queue ++ children cur rows) rows x f
      (omega (arith, sizes-append rows queue (children cur rows), sizes-children rows cur f))
      (In-append_left x queue (children cur rows) m))

visited-closed :
    (fuel : ℕ) (queue : List Text) (rows : List RefreshGrant) (x c : Text)
    → IsForest rows
    → sizes rows queue ≤ fuel
    → In x (visit fuel queue rows)
    → In c (children x rows)
    → In c (visit fuel queue rows)
unfolding visit sizes
visited-closed fuel [] rows x c f h m k = absurd m
visited-closed zero (cur ∷ queue) rows x c f h m k = absurd m
visited-closed (suc fuel) (cur ∷ queue) rows x c f h (inl e) k = inr (
    queue-visited fuel (queue ++ children cur rows) rows c f
      (omega (arith, sizes-append rows queue (children cur rows), sizes-children rows cur f))
      (In-append_right c queue (children cur rows) (rw e at k)))
visited-closed (suc fuel) (cur ∷ queue) rows x c f h (inr m) k = inr (
    visited-closed fuel (queue ++ children cur rows) rows x c f
      (omega (arith, sizes-append rows queue (children cur rows), sizes-children rows cur f)) m k)

pub Descends-visited :
    (rows : List RefreshGrant) (start x : Text) (fuel : ℕ)
    → IsForest rows
    → size rows start ≤ fuel
    → Descends rows start x
    → In x (visit fuel (start ∷ []) rows)
unfolding sizes
Descends-visited rows start x fuel f h self =
    queue-visited fuel (start ∷ []) rows start f (unfold sizes in omega (arith, h)) (inl refl)
Descends-visited rows start x fuel f h (rotated {id} d m) =
    visited-closed fuel (start ∷ []) rows id x f (unfold sizes in omega (arith, h))
      (Descends-visited rows start id fuel f h d) m

-- Every id of the queue descends from the start.
abbrev pub Queued : List RefreshGrant → Text → List Text → Type 0
Queued rows start [] = Unit
Queued rows start (cur ∷ queue) = Descends rows start cur × Queued rows start queue

queue-Descends :
    (rows : List RefreshGrant) (start cur : Text) (queue : List Text)
    → Queued rows start queue
    → Descends rows start cur
    → (found : List Text) → ((c : Text) → In c found → In c (children cur rows))
    → Queued rows start (queue ++ found)
queue-Descends rows start cur [] a d [] sub = tt
queue-Descends rows start cur [] a d (c ∷ found) sub = (
  rotated d (sub c (inl refl)),
  queue-Descends rows start cur [] a d found (λ x m. sub x (inr m)),
)
queue-Descends rows start cur (q ∷ queue) a d found sub =
    (a.0, queue-Descends rows start cur queue a.1 d found sub)

pub visited-Descends :
    (rows : List RefreshGrant) (start x : Text) (fuel : ℕ) (queue : List Text)
    → Queued rows start queue
    → In x (visit fuel queue rows)
    → Descends rows start x
unfolding visit
visited-Descends rows start x fuel [] a m = absurd m
visited-Descends rows start x zero (cur ∷ queue) a m = absurd m
visited-Descends rows start x (suc fuel) (cur ∷ queue) a (inl e) = rw e a.0
visited-Descends rows start x (suc fuel) (cur ∷ queue) a (inr m) =
    visited-Descends rows start x fuel (queue ++ children cur rows)
      (queue-Descends rows start cur queue a.1 a.0 (children cur rows) (λ c k. k)) m

-- The walk visits the descendants, and nothing else.
pub visit-Descends :
    (rows : List RefreshGrant) (start x : Text)
    → IsForest rows
    → In x (visit (2 ^ length rows) (start ∷ []) rows) ↔ Descends rows start x
visit-Descends rows start x f = (
  visited-Descends rows start x (2 ^ length rows) (start ∷ []) (self, tt),
  Descends-visited rows start x (2 ^ length rows) f (size-le rows start),
)

pub find-revoked :
    (id : Text) (rows : List RefreshGrant) (x : Text) (g : RefreshGrant)
    → find grant_id x rows ≡ some g
    → find grant_id x (update (has_id id) (with_status grant_revoked) rows)
      ≡ some (if text_eq g.refresh_grant_id id then with_status grant_revoked g else g)
find-revoked id rows x g h =
    find-update grant_id x (has_id id) (with_status grant_revoked) rows (λ r. refl)
    ∙ ap (update_found (has_id id) (with_status grant_revoked)) h

pub find-revoke_each-In :
    (l : List Text) (rows : List RefreshGrant) (x : Text) (g : RefreshGrant)
    → In x l ⊎ (g.status ≡ grant_revoked)
    → find grant_id x rows ≡ some g
    → find grant_id x (revoke_each l rows) ≡ some (with_status grant_revoked g)
unfolding revoke_each
find-revoke_each-In [] rows x g (inl m) h = absurd m
find-revoke_each-In [] rows x g (inr e) h = h ∙ ap (λ (s : GrantStatus). some (with_status s g)) e
find-revoke_each-In (id ∷ l) rows x g m h =
    let step = find-revoked id rows x g h in
    elim (Bool-cases (text_eq g.refresh_grant_id id)) [
      | inl hit ↦ find-revoke_each-In l _ x (with_status grant_revoked g) (inr refl) (step ∙ rw hit)
      | inr miss ↦
          find-revoke_each-In l _ x g
            (elim m [
              | inl (inl e) ↦ absurd (
                  cc (
                    miss,
                    text_eq_complete g.refresh_grant_id id (find-key grant_id x rows g h ∙ e),
                  ))
              | inl (inr k) ↦ inl k
              | inr e ↦ inr e
            ])
            (step ∙ rw miss)
    ]

pub find-revoke_each_out :
    (l : List Text) (rows : List RefreshGrant) (x : Text) (g : RefreshGrant)
    → ¬ In x l
    → find grant_id x rows ≡ some g
    → find grant_id x (revoke_each l rows) ≡ some g
unfolding revoke_each
find-revoke_each_out [] rows x g m h = h
find-revoke_each_out (id ∷ l) rows x g m h =
    let step = find-revoked id rows x g h in
    elim (Bool-cases (text_eq g.refresh_grant_id id)) [
      | inl hit ↦
          absurd
            (m (inl (sym (find-key grant_id x rows g h) ∙ text_eq_sound g.refresh_grant_id id hit)))
      | inr miss ↦ find-revoke_each_out l _ x g (λ k. m (inr k)) (step ∙ rw miss)
    ]
