-- ===== src/Rank/Service/Deleted.antt =====
-- What becomes of a deleted set of Service.go in the bucket, while the server goes on.
use fkgo_server.Base.{
  ℕ, ◌≡◌, refl, sym, ap, ◌∙◌, ◌≢◌, inl, inr, false, Option, none, some, List, [], ◌∷◌, ◌++◌, arith,
  Option-cases,
}
use fkgo_server.Base.Int.{ℤ}
use mathlib.Core.Option
use mathlib.Core.Option.{some-injective}
use fkgo_server.Base.Map.{
  GoMap, lookup, put, nat_eq, int_eq, lookup-put_ne, lookup-remove, lookup-remove_self,
}
use fkgo_server.Rank.Set.{RankSet, marshal}
use fkgo_server.Rank.Set
use fkgo_server.Rank.Service.{
  Reply, name_not_exists, answered, Server, Bucket, Persisted, Wake, change, timer, signal, persist,
  dump, dump_set, rank_change, delete_user, delete_set, take_change, is_marked, mark,
}

is_marked-append :
    (k j : ℕ) (ks : List ℕ) → j ≢ k → is_marked k ks ≡ false → is_marked k (ks ++ (j ∷ [])) ≡ false
unfolding is_marked
is_marked-append k j [] apart h = ground arith
is_marked-append k j (i ∷ ks) apart h = ground (arith, is_marked-append k j ks apart)

is_marked-mark :
    (k j : ℕ) (ks : List ℕ) → j ≢ k → is_marked k ks ≡ false → is_marked k (mark j ks) ≡ false
unfolding mark
is_marked-mark k j ks apart h = ground (arith, is_marked-append k j ks apart h)

is_marked-∷ :
    (k j : ℕ) (ks : List ℕ) → is_marked k (j ∷ ks) ≡ false → (j ≢ k) × (is_marked k ks ≡ false)
unfolding is_marked
is_marked-∷ k j ks h = (λ e. absurd (ground arith), ground arith)

map-some {ℓ κ} :
    {A : Type ℓ} {B : Type κ} (f : A → B) (o : Option A) (y : B)
    → Option.map f o ≡ some y
    → (x : A) × (f x ≡ y)
map-some f none y e = absurd (ground arith)
map-some f (some x) y e = (x, some-injective (f x) y e)

-- What BoltDB documents of a bucket: a key is changed by writes of itself only; and numbers that differ are
-- printed differently.
pub record BucketLaws (B : Type 0) (bucket : Bucket B) (fetch : List ℕ → B → Option (List ℕ))
    : Type 0 where
  pub fetch-put_ne : (k j v : List ℕ) (b : B) → k ≢ j → fetch j (bucket.put_key k v b) ≡ fetch j b
  pub fetch-delete_ne : (k j : List ℕ) (b : B) → k ≢ j → fetch j (bucket.delete_key k b) ≡ fetch j b
  pub sprint-injective : (m n : ℕ) → bucket.sprint m ≡ bucket.sprint n → m ≡ n

module _ (range : GoMap ℤ ℤ → List (ℤ × ℤ)) (B : Type 0) (bucket : Bucket B)
    (encode : GoMap ℤ ℤ → Option (List ℕ)) (set_id : ℕ) where
  -- The server goes on: its background task wakes, other sets change, users and sets are deleted.
  pub data Later : Persisted B → Persisted B → Type 0 where
    now : {p : Persisted B} → Later p p
    woken : {p q : Persisted B} (w : Wake) → Later (persist B bucket encode w p).0 q → Later p q
    changed :
        {p q : Persisted B} (j : ℕ) (user_id score : ℤ) (sv : Server)
        → j ≢ set_id
        → rank_change range j user_id score p.server ≡ some sv
        → Later (record p { server = sv }) q
        → Later p q
    user_deleted :
        {p q : Persisted B} (j : ℕ) (user_id : ℤ) (sv : Server)
        → delete_user range j user_id p.server ≡ some (answered sv)
        → Later (record p { server = sv }) q
        → Later p q
    set_deleted :
        {p q : Persisted B} (j : ℕ)
        → Later (record p { server = delete_set j p.server }) q
        → Later p q

  -- The server has no such set, and no change of it waits.
  pub record Forgotten (p : Persisted B) : Type 0 where
    pub gone : lookup set_id p.server.ranks ≡ none
    pub not_pending : is_marked set_id p.server.pending ≡ false
    pub not_changed : is_marked set_id p.changes ≡ false

  changed-Forgotten :
      (p : Persisted B) (j : ℕ) (user_id score : ℤ) (sv : Server)
      → j ≢ set_id
      → rank_change range j user_id score p.server ≡ some sv
      → Forgotten p
      → Forgotten (record p { server = sv })
  unfolding rank_change
  changed-Forgotten p j user_id score sv apart done f =
      let (rs, made) = map-some _ _ sv done in
      record {
        gone =
            ap (λ s. lookup set_id s.ranks) (sym made)
            ∙ lookup-put_ne j set_id rs p.server.ranks apart
            ∙ f.gone;
        not_pending =
            ap (λ s. is_marked set_id s.pending) (sym made)
            ∙ is_marked-append set_id j p.server.pending apart f.not_pending;
        not_changed = f.not_changed;
      }

  delete_user_missing :
      (sv : Server) (j : ℕ) (user_id : ℤ)
      → lookup j sv.ranks ≡ none
      → delete_user range j user_id sv ≡ some name_not_exists
  unfolding delete_user
  delete_user_missing sv j user_id e = rw (delete_user, e) refl

  delete_user_known :
      (sv : Server) (j : ℕ) (user_id : ℤ) (rs : RankSet)
      → lookup j sv.ranks ≡ some rs
      → delete_user range j user_id sv
        ≡ Option.map
            (λ out. answered (record sv { ranks = put j out sv.ranks }))
            (Set.delete range user_id rs)
  unfolding delete_user
  delete_user_known sv j user_id rs e = rw (delete_user, e) refl

  abbrev server_of : Server → Reply Server → Server
  server_of sv name_not_exists = sv
  server_of sv (answered out) = out

  user_deleted-Forgotten :
      (p : Persisted B) (j : ℕ) (user_id : ℤ) (sv : Server)
      → delete_user range j user_id p.server ≡ some (answered sv)
      → Forgotten p
      → Forgotten (record p { server = sv })
  user_deleted-Forgotten p j user_id sv done f = elim (Option-cases (lookup j p.server.ranks)) [
    | inl e ↦
        let both : name_not_exists ≡ answered sv =
          some-injective name_not_exists (answered sv)
            (sym (delete_user_missing p.server j user_id e) ∙ done) in
        absurd (ground arith)
    | inr (rs, e) ↦
        let (out, made) =
          map-some _ _ (answered sv) (sym (delete_user_known p.server j user_id rs e) ∙ done) in
        let new : record (p.server) { ranks = put j out p.server.ranks } ≡ sv =
          ap (server_of sv) made in
        let apart : j ≢ set_id =
          λ same. absurd (ground (arith, ap (λ k. lookup k p.server.ranks) same, e, f.gone)) in
        record {
          gone =
              ap (λ s. lookup set_id s.ranks) (sym new)
              ∙ lookup-put_ne j set_id out p.server.ranks apart
              ∙ f.gone;
          not_pending = ap (λ s. is_marked set_id s.pending) (sym new) ∙ f.not_pending;
          not_changed = f.not_changed;
        }
  ]

  take_change-Forgotten :
      (pending : List ℕ) (p : Persisted B)
      → is_marked set_id pending ≡ false
      → Forgotten p
      → Forgotten (take_change B bucket encode pending p)
  unfolding take_change
  take_change-Forgotten [] p h f = f
  take_change-Forgotten (k ∷ rest) p h f =
      let (apart, others) = is_marked-∷ set_id k rest h in
      record {
        gone = f.gone;
        not_pending = others;
        not_changed = is_marked-mark set_id k p.changes apart f.not_changed;
      }

  persist-Forgotten :
      (w : Wake) (p : Persisted B) → Forgotten p → Forgotten (persist B bucket encode w p).0
  unfolding persist is_marked
  persist-Forgotten change p f = take_change-Forgotten p.server.pending p f.not_pending f
  persist-Forgotten timer p f = record {
    gone = f.gone;
    not_pending = f.not_pending;
    not_changed = refl;
  }
  persist-Forgotten signal p f = record {
    gone = f.gone;
    not_pending = f.not_pending;
    not_changed = f.not_changed;
  }

  set_deleted-Forgotten :
      (j : ℕ) (p : Persisted B)
      → Forgotten p
      → Forgotten (record p { server = delete_set j p.server })
  unfolding delete_set
  set_deleted-Forgotten j p f = record {
    gone = ground (arith, lookup-remove j set_id p.server.ranks, f.gone);
    not_pending = f.not_pending;
    not_changed = f.not_changed;
  }

  module _ (fetch : List ℕ → B → Option (List ℕ)) (laws : BucketLaws B bucket fetch) where
    dump_set_keeps :
        (sv : Server) (j : ℕ) (b : B)
        → j ≢ set_id
        → fetch (bucket.sprint set_id) (dump_set B bucket encode sv j b)
          ≡ fetch (bucket.sprint set_id) b
    unfolding dump_set
    dump_set_keeps sv j b apart =
        let other : bucket.sprint j ≢ bucket.sprint set_id =
          λ e. apart (laws.sprint-injective j set_id e) in
        elim (Option-cases (lookup j sv.ranks)) [
          | inl e ↦
              rw (dump_set, e)
                (laws.fetch-delete_ne (bucket.sprint j) (bucket.sprint set_id) b other)
          | inr (rs, e) ↦ elim (Option-cases (marshal encode rs)) [
            | inl h ↦ rw (dump_set, e, h) refl
            | inr (bin, h) ↦
                rw (dump_set, e, h)
                  (laws.fetch-put_ne (bucket.sprint j) (bucket.sprint set_id) bin b other)
          ]
        ]

    dump_keeps :
        (sv : Server) (changes : List ℕ) (b : B)
        → is_marked set_id changes ≡ false
        → fetch (bucket.sprint set_id) (dump B bucket encode sv changes b)
          ≡ fetch (bucket.sprint set_id) b
    unfolding dump
    dump_keeps sv [] b h = refl
    dump_keeps sv (j ∷ changes) b h =
        let (apart, rest) = is_marked-∷ set_id j changes h in
        dump_keeps sv changes (dump_set B bucket encode sv j b) rest ∙ dump_set_keeps sv j b apart

    take_change_store :
        (pending : List ℕ) (p : Persisted B)
        → (take_change B bucket encode pending p).store ≡ p.store
    unfolding take_change
    take_change_store [] p = refl
    take_change_store (k ∷ rest) p = refl

    persist_keeps :
        (w : Wake) (p : Persisted B)
        → Forgotten p
        → fetch (bucket.sprint set_id) (persist B bucket encode w p).0.store
          ≡ fetch (bucket.sprint set_id) p.store
    unfolding persist
    persist_keeps change p f =
        ap (fetch (bucket.sprint set_id)) (take_change_store p.server.pending p)
    persist_keeps timer p f = dump_keeps p.server p.changes p.store f.not_changed
    persist_keeps signal p f = dump_keeps p.server p.changes p.store f.not_changed

    deletion_lasts :
        {p q : Persisted B}
        → Later p q
        → Forgotten p
        → (lookup set_id q.server.ranks ≡ none)
          × (fetch (bucket.sprint set_id) q.store ≡ fetch (bucket.sprint set_id) p.store)
    deletion_lasts now f = (f.gone, refl)
    deletion_lasts (woken {p} {q} w later) f =
        let (gone, same) = deletion_lasts later (persist-Forgotten w p f) in
        (gone, same ∙ persist_keeps w p f)
    deletion_lasts (changed {p} {q} j user_id score sv apart done later) f =
        deletion_lasts later (changed-Forgotten p j user_id score sv apart done f)
    deletion_lasts (user_deleted {p} {q} j user_id sv done later) f =
        deletion_lasts later (user_deleted-Forgotten p j user_id sv done f)
    deletion_lasts (set_deleted {p} {q} j later) f =
        deletion_lasts later (set_deleted-Forgotten j p f)

    -- The deletion of a set does not come to the bucket: where no change of the set waits, the server
    -- has no such set from then on, but the bucket keeps what it has under the set's key, through all
    -- rounds of the background task, changes of other sets and deletions of users and sets.
    pub delete_set_not_stored :
        (p q : Persisted B)
        → is_marked set_id p.server.pending ≡ false
        → is_marked set_id p.changes ≡ false
        → Later (record p { server = delete_set set_id p.server }) q
        → (lookup set_id q.server.ranks ≡ none)
          × (fetch (bucket.sprint set_id) q.store ≡ fetch (bucket.sprint set_id) p.store)
    unfolding delete_set
    delete_set_not_stored p q idle nothing later = deletion_lasts later (record {
      gone = lookup-remove_self set_id p.server.ranks;
      not_pending = idle;
      not_changed = nothing;
    })
