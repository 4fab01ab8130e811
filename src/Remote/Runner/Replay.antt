-- ===== src/Remote/Runner/Replay.antt =====
-- A message that is delivered again to src/remote/runner-store.ts is answered as before.
use workflowd.Base.{
  ℕ, ◌≡◌, refl, sym, ap, ◌∙◌, inl, inr, String, Bool, true, false, Option, none, some, List, [],
  ◌∷◌, ◌++◌, arith, if◌then◌else◌, str_eq, eq_iff, find?, update, Bool-cases, Option-cases,
  find?-append_none,
}
use workflowd.Remote.Runner.{
  RemoteCommand, RemoteHostMessage, command, RunnerDeliveryInput, Disposition, DeliveryRow, Runner,
  Receipt, inbox_is, delivery_is, current_of, Codec,
}
use workflowd.Remote.Runner.Batch.{
  changed, conflicted, delivery_row, deliver, replay_delivery, record_fence, apply_fence,
  record_command, accept_command, initial_disposition, record_message, rejection_disposition,
  record_delivery,
}

module _ {A : Type 0} (p : A → Bool) (f : A → A) where
  find?-update_self :
      ((a : A) → p a ≡ true → p (f a) ≡ true)
      → (xs : List A) (a : A) → find? p xs ≡ some a
      → find? p (update p f xs) ≡ some (f a)
  find?-update_self h [] a e = cc
  find?-update_self h (x ∷ xs) a e = ground (arith, h x, find?-update_self h xs a)

  update_twice :
      ((a : A) → f (f a) ≡ f a)
      → ((a : A) → p a ≡ true → p (f a) ≡ true)
      → (xs : List A) → update p f (update p f xs) ≡ update p f xs
  update_twice h k [] = refl
  update_twice h k (x ∷ xs) = ground (arith, h x, k x, update_twice h k xs)

-- Each branch that records a message ends in `deliver`, over tables with the same deliveries.
abbrev Delivers : RunnerDeliveryInput → String → ℕ → Runner → Runner × Receipt → Type 0
Delivers d hash at db out =
    (db' : Runner) × (id : Option String) × (disposition : Disposition) × (out
      ≡ deliver d hash id disposition at db')
    × (db'.deliveries ≡ db.deliveries)

record_command-Delivers :
    (k : Codec) (host : String) (d : RunnerDeliveryInput) (c : RemoteCommand) (hash : String)
    (at : ℕ) (db : Runner)
    → Delivers d hash at db (record_command k host d c hash at db)
unfolding record_command
record_command-Delivers k host d c hash at db =
    elim (Option-cases (find? (inbox_is c.command_id) db.inbox)) [
      | inl e ↦
          let x = initial_disposition host c (find? (current_of c.job_id) db.current) at in
          (
            accept_command c (k.stringify c) x at db,
            some c.command_id,
            x,
            rw (e, record_command) refl,
            refl,
          )
      | inr (row, e) ↦
          let x =
            if str_eq row.envelope_json (k.stringify c)
            then Disposition.duplicate
            else Disposition.conflict in
          (db, some c.command_id, x, rw (e, record_command) refl, refl)
    ]

record_message-Delivers :
    (k : Codec) (host : String) (d : RunnerDeliveryInput) (m : Option RemoteHostMessage)
    (hash : String) (at : ℕ) (db : Runner)
    → Delivers d hash at db (record_message k host d m hash at db)
unfolding record_message record_fence
record_message-Delivers k host d none hash at db =
    (db, none, rejection_disposition d.rejection, refl, refl)
record_message-Delivers k host d (some (RemoteHostMessage.fence f)) hash at db =
    elim (Bool-cases (str_eq f.host_id host)) [
      | inl e ↦ (apply_fence f at db, none, Disposition.fence, rw e refl, refl)
      | inr e ↦ (db, none, Disposition.wrong_host, rw e refl, refl)
    ]
record_message-Delivers k host d (some (command c)) hash at db =
    record_command-Delivers k host d c hash at db

-- A row that this very delivery made is replayed without a change.
replay_own :
    (k : Codec) (host : String) (d : RunnerDeliveryInput) (at later : ℕ) (db db' : Runner)
    (id : Option String) (x : Disposition)
    → find? (delivery_is d.delivery_id) db.deliveries ≡ none
    → db'.deliveries ≡ db.deliveries
    → record_delivery k host d later (deliver d (k.sha256 d.bytes) id x at db').0
      ≡ deliver d (k.sha256 d.bytes) id x at db'
unfolding record_delivery replay_delivery
replay_own k host d at later db db' id x e same =
    let hash = k.sha256 d.bytes in
    let row = delivery_row d hash id x at in
    let found : find? (delivery_is d.delivery_id) (db'.deliveries ++ (row ∷ [])) ≡ some row =
      find?-append_none (delivery_is d.delivery_id) db'.deliveries row
        (ap (find? (delivery_is d.delivery_id)) same ∙ e)
        (ground (arith, eq_iff d.delivery_id d.delivery_id)) in
    let kept : changed hash d row ≡ false = ground (arith, eq_iff hash hash) in
    rw (found, record_delivery) (rw (kept, replay_delivery) refl)

records :
    (k : Codec) (host : String) (d : RunnerDeliveryInput) (at : ℕ) (db : Runner)
    → find? (delivery_is d.delivery_id) db.deliveries ≡ none
    → record_delivery k host d at db ≡ record_message k host d d.message (k.sha256 d.bytes) at db
unfolding record_delivery
records k host d at db e = rw (e, record_delivery) refl

replays :
    (k : Codec) (host : String) (d : RunnerDeliveryInput) (at : ℕ) (db : Runner) (row : DeliveryRow)
    → find? (delivery_is d.delivery_id) db.deliveries ≡ some row
    → record_delivery k host d at db ≡ replay_delivery d (k.sha256 d.bytes) row db
unfolding record_delivery
replays k host d at db row e = rw (e, record_delivery) refl

-- A replay that changes the row changes it once.
replay_twice :
    (k : Codec) (host : String) (d : RunnerDeliveryInput) (later : ℕ) (db : Runner)
    (row : DeliveryRow)
    → find? (delivery_is d.delivery_id) db.deliveries ≡ some row
    → record_delivery k host d later (replay_delivery d (k.sha256 d.bytes) row db).0
      ≡ replay_delivery d (k.sha256 d.bytes) row db
unfolding replay_delivery
replay_twice k host d later db row e = elim (Bool-cases (changed (k.sha256 d.bytes) d row)) [
  | inl c ↦
      let p = delivery_is d.delivery_id in
      let db' : Runner = record db { deliveries = update p conflicted db.deliveries } in
      let again =
        replays k host d later db' (conflicted row)
          (find?-update_self p conflicted (λ r h. h) db.deliveries row e) in
      rw (c, replay_delivery)
        (again
          ∙ rw (c, replay_delivery)
              (ap
                (λ (rows : List DeliveryRow). (
                  record db { deliveries = rows },
                  record {
                    delivery_id = d.delivery_id;
                    command_id = row.command_id;
                    disposition = Disposition.conflict;
                  },
                ))
                (update_twice p conflicted (λ r. refl) (λ r h. h) db.deliveries)))
  | inr c ↦ rw (c, replay_delivery) (replays k host d later db row e ∙ rw (c, replay_delivery) refl)
]

-- A delivery that is repeated, at any later time, gets the receipt of the first time and changes
-- nothing more.
pub record_delivery_again :
    (k : Codec) (host : String) (d : RunnerDeliveryInput) (at later : ℕ) (db : Runner)
    → record_delivery k host d later (record_delivery k host d at db).0
      ≡ record_delivery k host d at db
record_delivery_again k host d at later db =
    elim (Option-cases (find? (delivery_is d.delivery_id) db.deliveries)) [
      | inl e ↦
          let (db', id, x, out, same) =
            record_message-Delivers k host d d.message (k.sha256 d.bytes) at db in
          let first = records k host d at db e ∙ out in
          ap (λ (o : Runner × Receipt). record_delivery k host d later o.0) first
          ∙ (replay_own k host d at later db db' id x e same ∙ sym first)
      | inr (row, e) ↦
          let first = replays k host d at db row e in
          ap (λ (o : Runner × Receipt). record_delivery k host d later o.0) first
          ∙ (replay_twice k host d later db row e ∙ sym first)
    ]
