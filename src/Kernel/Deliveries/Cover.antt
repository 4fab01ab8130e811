-- ===== src/Kernel/Deliveries/Cover.antt =====
-- Inserting deliveries with `ON CONFLICT DO NOTHING` reaches every wait that had none.
use workflowd.Base.{
  ℕ, Bool, true, false, List, [], ◌∷◌, map, ◌≡◌, sym, subst, ◌⊎◌, inl, inr, arith, Bool-cases,
  if◌then◌else◌, eq_iff, select, exists, All, All-map, All-append, exists-append,
}
use workflowd.Kernel.Db.{WaitRow, DeliveryRow, delivery_is}
use workflowd.Kernel.Deliveries.{new_delivery, insert_delivery, insert_deliveries, delivers}

abbrev pub has_delivery : WaitRow → List DeliveryRow → Bool
has_delivery wait = exists (delivery_is wait.instance_id wait.wait_id)

-- The wait has this delivery, or none at all.
abbrev pub Served : ℕ → List DeliveryRow → WaitRow → Type 0
Served sequence ds w = (exists (delivers sequence w) ds ≡ true) ⊎ (has_delivery w ds ≡ false)

exists-insert_delivery :
    (p : DeliveryRow → Bool) (d : DeliveryRow) (ds : List DeliveryRow)
    → exists p ds ≡ true
    → exists p (insert_delivery d ds) ≡ true
unfolding insert_delivery
exists-insert_delivery p d ds h = ground (arith, exists-append p ds (d ∷ []))

pub exists-insert_deliveries :
    (p : DeliveryRow → Bool) (ns ds : List DeliveryRow)
    → exists p ds ≡ true
    → exists p (insert_deliveries ns ds) ≡ true
unfolding insert_deliveries
exists-insert_deliveries p [] ds h = h
exists-insert_deliveries p (n ∷ ns) ds h =
    exists-insert_deliveries p ns (insert_delivery n ds) (exists-insert_delivery p n ds h)

pub Served-insert_delivery :
    (sequence at : ℕ) (v w : WaitRow) (ds : List DeliveryRow)
    → Served sequence ds w
    → Served sequence (insert_delivery (new_delivery sequence at v) ds) w
unfolding insert_delivery
Served-insert_delivery sequence at v w ds h = ground (
  arith,
  exists-append (delivers sequence w) ds (new_delivery sequence at v ∷ []),
  exists-append (delivery_is w.instance_id w.wait_id) ds (new_delivery sequence at v ∷ []),
)

insert_delivery-delivers :
    (sequence at : ℕ) (w : WaitRow) (ds : List DeliveryRow)
    → Served sequence ds w
    → exists (delivers sequence w) (insert_delivery (new_delivery sequence at w) ds) ≡ true
unfolding insert_delivery
insert_delivery-delivers sequence at w ds h = ground (
  arith,
  eq_iff w.instance_id w.instance_id,
  eq_iff w.wait_id w.wait_id,
  exists-append (delivers sequence w) ds (new_delivery sequence at w ∷ []),
)

pub Served-insert_deliveries :
    (sequence at : ℕ) (w : WaitRow) (vs : List WaitRow) (ds : List DeliveryRow)
    → Served sequence ds w
    → Served sequence (insert_deliveries (map (new_delivery sequence at) vs) ds) w
unfolding insert_deliveries
Served-insert_deliveries sequence at w [] ds h = h
Served-insert_deliveries sequence at w (v ∷ vs) ds h =
    Served-insert_deliveries sequence at w vs (insert_delivery (new_delivery sequence at v) ds)
      (Served-insert_delivery sequence at v w ds h)

-- Every wait that `p` chooses has the delivery once those of `chosen` are inserted.
abbrev Delivered :
    ℕ → ℕ → (WaitRow → Bool) → List DeliveryRow → List WaitRow → List WaitRow → Type 0
Delivered sequence at p ds ws chosen =
    All
      (λ w.
        p w ≡ true
        → exists (delivers sequence w)
            (insert_deliveries (map (new_delivery sequence at) chosen) ds)
          ≡ true)
      ws

abbrev select_if : Bool → WaitRow → List WaitRow → List WaitRow
select_if b w ws = if b then w ∷ ws else ws

-- Every chosen wait that was served or without a delivery has the delivery in the end.
pub insert_deliveries-delivers :
    (sequence at : ℕ) (p : WaitRow → Bool) (ws : List WaitRow) (ds : List DeliveryRow)
    → All (λ w. p w ≡ true → Served sequence ds w) ws
    → Delivered sequence at p ds ws (select p ws)
unfolding insert_deliveries
insert_deliveries-delivers sequence at p [] ds h = tt
insert_deliveries-delivers sequence at p (w ∷ ws) ds h = elim (Bool-cases (p w)) [
  | inl e ↦
      let ds' = insert_delivery (new_delivery sequence at w) ds in
      subst (λ b. Delivered sequence at p ds (w ∷ ws) (select_if b w (select p ws))) (sym e)
        (
          λ _.
              exists-insert_deliveries (delivers sequence w)
                (map (new_delivery sequence at) (select p ws)) ds'
                (insert_delivery-delivers sequence at w ds (h.0 e)),
          insert_deliveries-delivers sequence at p ws ds'
              (All-map _ _ (λ v k t. Served-insert_delivery sequence at w v ds (k t)) ws h.1),
        )
  | inr e ↦
      subst (λ b. Delivered sequence at p ds (w ∷ ws) (select_if b w (select p ws))) (sym e)
        (λ t. cc, insert_deliveries-delivers sequence at p ws ds h.1)
]

pub All-insert_delivery {κ} :
    (P : DeliveryRow → Type κ) (n : DeliveryRow) (ds : List DeliveryRow)
    → P n
    → All P ds
    → All P (insert_delivery n ds)
unfolding insert_delivery
All-insert_delivery P n ds hn h =
    elim (Bool-cases (exists (delivery_is n.instance_id n.wait_id) ds)) [
      | inl e ↦ rw e h
      | inr e ↦ rw e (All-append P ds (n ∷ []) h (hn, tt))
    ]

pub All-insert_deliveries {κ} :
    (P : DeliveryRow → Type κ) (ns ds : List DeliveryRow)
    → All P ns
    → All P ds
    → All P (insert_deliveries ns ds)
unfolding insert_deliveries
All-insert_deliveries P [] ds hn h = h
All-insert_deliveries P (n ∷ ns) ds hn h =
    All-insert_deliveries P ns (insert_delivery n ds) hn.1 (All-insert_delivery P n ds hn.0 h)

pub has_delivery-insert :
    (d : DeliveryRow) (w : WaitRow) (ds : List DeliveryRow)
    → delivery_is w.instance_id w.wait_id d ≡ false
    → has_delivery w (insert_delivery d ds) ≡ has_delivery w ds
unfolding insert_delivery
has_delivery-insert d w ds other =
    ground (arith, exists-append (delivery_is w.instance_id w.wait_id) ds (d ∷ []))
