-- ===== src/Store/Clients.antt =====
-- server/internal/store/repo_oauthclient.go: the writes of client registrations, and their list.
use ouro_pass.Base.{
  if◌then◌else◌, Bool-cases, is_unset, Text, text_eq, text_eq_sound, text_eq_refl, ◌≡◌, refl, ◌∙◌,
  ◌≢◌, inl, inr, Bool, Option, none, some, List, [], ◌∷◌, ◌++◌, arith,
}
use ouro_pass.Store.Table.{find, update, found_or, find-insert}
use ouro_pass.Store.Domain.{OAuthClient, Db}
use ouro_pass.Store.Exec.{Env, Exec, query, exec}
use ouro_pass.Store.Timestamp.{ts, stamp_lt}
use ouro_pass.Store.Order.{order_by}
use ouro_pass.Store.Tokens.{client_id_of}

-- What `DO UPDATE SET` takes over; the row keeps its creation time.
abbrev pub take_over : OAuthClient → OAuthClient → OAuthClient
take_over c row = record c { created_at = row.created_at }

unfoldable pub upsert_rows : OAuthClient → List OAuthClient → List OAuthClient
upsert_rows c rows =
    if is_unset (find client_id_of c.client_id rows)
    then rows ++ (c ∷ [])
    else update (λ x. text_eq x.client_id c.client_id) (take_over c) rows

abbrev pub older_client : OAuthClient → OAuthClient → Bool
older_client a b = stamp_lt (ts a.created_at) (ts b.created_at)

module _ (env : Env) where
  unfoldable pub upsert : OAuthClient → Exec Db (Unit {0})
  unfolding exec upsert_rows
  upsert c = exec env (λ db. record db { clients = upsert_rows c db.clients }) (λ db. tt)

  unfoldable pub list : Exec Db (List OAuthClient)
  unfolding query order_by
  list = query env (λ db. order_by older_client db.clients)

find-replaced :
    (c old : OAuthClient) (rows : List OAuthClient)
    → find client_id_of c.client_id rows ≡ some old
    → find client_id_of c.client_id
        (update (λ x. text_eq x.client_id c.client_id) (take_over c) rows)
      ≡ some (take_over c old)
unfolding find update
find-replaced c old [] h = absurd (cc)
find-replaced c old (x ∷ rows) h = elim (Bool-cases (text_eq x.client_id c.client_id)) [
  | inl hit ↦ let e : x ≡ old = ground (arith, hit, h) in rw (hit, text_eq_refl c.client_id) (rw e)
  | inr miss ↦ rw (miss, miss) (find-replaced c old rows (ground (arith, miss, h)))
]

find-replaced_ne :
    (c : OAuthClient) (k : Text) (rows : List OAuthClient)
    → c.client_id ≢ k
    → find client_id_of k (update (λ x. text_eq x.client_id c.client_id) (take_over c) rows)
      ≡ find client_id_of k rows
unfolding find update
find-replaced_ne c k [] ne = refl
find-replaced_ne c k (x ∷ rows) ne = elim (Bool-cases (text_eq x.client_id c.client_id)) [
  | inl hit ↦
      let e = text_eq_sound x.client_id c.client_id hit in
      rw (hit, e) (ground (arith, text_eq_sound c.client_id k, find-replaced_ne c k rows ne))
  | inr miss ↦ rw miss (ground (arith, find-replaced_ne c k rows ne))
]

-- After `Upsert` of a client that is there, its row has what was written and the creation time that
-- it had.
pub find-upsert_rows :
    (c old : OAuthClient) (rows : List OAuthClient)
    → find client_id_of c.client_id rows ≡ some old
    → find client_id_of c.client_id (upsert_rows c rows) ≡ some (take_over c old)
unfolding upsert_rows
find-upsert_rows c old rows there = rw there (find-replaced c old rows there)

-- `Upsert` leaves the rows of other ids alone.
pub find-upsert_rows_ne :
    (c : OAuthClient) (k : Text) (rows : List OAuthClient)
    → c.client_id ≢ k
    → find client_id_of k (upsert_rows c rows) ≡ find client_id_of k rows
unfolding upsert_rows
find-upsert_rows_ne c k rows ne =
    elim (Bool-cases (is_unset (find client_id_of c.client_id rows))) [
      | inl new ↦ rw new (find-insert client_id_of k rows c ∙ absent (find client_id_of k rows))
      | inr old ↦ rw old (find-replaced_ne c k rows ne)
    ]
  where
    absent : (o : Option OAuthClient) → found_or client_id_of k c o ≡ o
    absent none = ground (arith, text_eq_sound c.client_id k)
    absent (some x) = refl
