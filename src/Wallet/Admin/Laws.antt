-- ===== src/Wallet/Admin/Laws.antt =====
-- What a manual adjustment of a wallet does.
use muhammad_tours_and_trave.Prelude.{
  ℕ, ◌≡◌, refl, subst, ap, pos, ◌+ℤ◌, ◌-ℤ◌, int_laws, leb_ℤ, round2, true, false, none, some, inl,
  inr, ◌∷◌, Result, Error, ok, err, bad_request, Call-cases, Bool-cases, if◌then◌else◌, map,
}
use muhammad_tours_and_trave.Access.{AuthenticatedUser}
use muhammad_tours_and_trave.Wallet.Model.{
  AuditEntry, Wallet, WalletTransaction, Store, find_transaction,
}
use muhammad_tours_and_trave.Wallet.Apply.{apply_transaction, get_or_create_wallet}
use muhammad_tours_and_trave.Wallet.Apply.Outcome.{
  new_balance_of, refused, replayed, posted, apply_transaction-Applied,
}
use muhammad_tours_and_trave.Wallet.Apply.Ledger.{
  IsSound, apply_transaction-IsSound, get_or_create_wallet-IsSound, get_or_create_wallet-IsQuiet,
  IsQuiet,
}
use muhammad_tours_and_trave.Wallet.Admin.{
  Adjustment, is_debit, ledger_type, adjustment_input, record_audit, admin_adjust,
}

audited-IsSound : (a : AuditEntry) (s : Store) → IsSound s → IsSound (record_audit a s)
audited-IsSound a s h = record {
  balanced = h.balanced;
  chained = h.chained;
  used = h.used;
  issued = h.issued;
}

nothing : round2 (pos 0) ≡ pos 0
unfolding round2
nothing = refl

direction :
    (user : AuthenticatedUser) (agency_id key : ℕ) (input : Adjustment) (w : Wallet)
    → new_balance_of (adjustment_input user.id agency_id input key) w ≡ (
        if is_debit input.type_
        then w.balance -ℤ round2 input.amount
        else w.balance +ℤ round2 input.amount)
direction user agency_id key input w = elim (Bool-cases (is_debit input.type_)) [
  | inl d ↦ rw (d, nothing) (omega int_laws)
  | inr c ↦ rw (c, nothing) (omega int_laws)
]

module _ (user : AuthenticatedUser) (agency_id : ℕ) (input : Adjustment) (key : ℕ) (s : Store) where
  admin_adjust_refused :
      leb_ℤ input.amount (pos 0) ≡ true
      → admin_adjust user agency_id input key s ≡ (err bad_request, s)
  unfolding admin_adjust
  admin_adjust_refused h = rw h

  module _ (positive : leb_ℤ input.amount (pos 0) ≡ false) where
    admin_adjust_no_wallet :
        {e : Error} {s' : Store}
        → get_or_create_wallet agency_id s ≡ (err e, s')
        → admin_adjust user agency_id input key s ≡ (err e, s')
    unfolding admin_adjust
    admin_adjust_no_wallet h = rw (positive, h)

    admin_adjust_failed :
        {w : Wallet} {s' s'' : Store} {e : Error}
        → get_or_create_wallet agency_id s ≡ (ok w, s')
        → apply_transaction (adjustment_input user.id agency_id input key) s' ≡ (err e, s'')
        → admin_adjust user agency_id input key s ≡ (err e, s'')
    unfolding admin_adjust
    admin_adjust_failed h k = rw (positive, h, k)

    admin_adjust_done :
        {w : Wallet} {s' s'' : Store} {t : WalletTransaction}
        → get_or_create_wallet agency_id s ≡ (ok w, s')
        → apply_transaction (adjustment_input user.id agency_id input key) s' ≡ (ok t, s'')
        → admin_adjust user agency_id input key s ≡ (
          ok t,
          record_audit
              (record {
                user_id = user.id;
                agency_id = agency_id;
                type_ = ledger_type input.type_;
                amount = input.amount;
              })
              s'',
        )
    unfolding admin_adjust
    admin_adjust_done h k = rw (positive, h, k)

  -- An adjustment, whatever it asks for and however it ends, keeps every balance the sum of its
  -- ledger.
  admin_adjust-IsSound : IsSound s → IsSound (admin_adjust user agency_id input key s).1
  admin_adjust-IsSound h = elim (Bool-cases (leb_ℤ input.amount (pos 0))) [
    | inl refusal ↦ rw (admin_adjust_refused refusal) h
    | inr positive ↦ elim (Call-cases (get_or_create_wallet agency_id s)) [
      | inr (e, s', q) ↦
          rw (admin_adjust_no_wallet positive q)
            (subst (λ r. IsSound r.1) q (get_or_create_wallet-IsSound agency_id s h))
      | inl (w, s', q) ↦
          let h' = subst (λ r. IsSound r.1) q (get_or_create_wallet-IsSound agency_id s h) in
          let h'' =
            apply_transaction-IsSound (adjustment_input user.id agency_id input key) s' h' in
          elim (Call-cases (apply_transaction (adjustment_input user.id agency_id input key) s')) [
            | inr (e, s'', q') ↦
                rw (admin_adjust_failed positive q q') (subst (λ r. IsSound r.1) q' h'')
            | inl (t, s'', q') ↦
                rw (admin_adjust_done positive q q')
                  (audited-IsSound _ s'' (subst (λ r. IsSound r.1) q' h''))
          ]
    ]
  ]

  -- What an adjustment has done that went through: one entry in the direction of its type, over
  -- exactly the amount that was asked for, under the name of the acting user, and an audit entry.
  abbrev pub Adjusted : Result WalletTransaction × Store → Type 0
  Adjusted (err e, s') = Unit {0}
  Adjusted (ok t, s') =
      (t.new_balance ≡ (
        if is_debit input.type_
        then t.previous_balance -ℤ round2 input.amount
        else t.previous_balance +ℤ round2 input.amount))
      × (t.type_ ≡ ledger_type input.type_)
      × (t.created_by ≡ some user.id)
      × (map (λ a. a.amount) s'.audit ≡ input.amount ∷ map (λ a. a.amount) s.audit)

  -- An adjustment under a new key that goes through moves the balance by exactly its amount, up
  -- or down by its type, and leaves its mark in the audit log.
  admin_adjust-Adjusted :
      find_transaction key s ≡ none → Adjusted (admin_adjust user agency_id input key s)
  admin_adjust-Adjusted fresh = elim (Bool-cases (leb_ℤ input.amount (pos 0))) [
    | inl refusal ↦ rw (admin_adjust_refused refusal) tt
    | inr positive ↦ elim (Call-cases (get_or_create_wallet agency_id s)) [
      | inr (e, s', q) ↦ rw (admin_adjust_no_wallet positive q) tt
      | inl (w, s', q) ↦
          let (kept, log) =
            subst (λ r. IsQuiet agency_id s r.1) q (get_or_create_wallet-IsQuiet agency_id s) in
          elim (apply_transaction-Applied (adjustment_input user.id agency_id input key) s') [
            | refused e q' ↦ rw (admin_adjust_failed positive q q') tt
            | replayed t one known q' ↦ cc
            | posted v a new wallet agency enough one q' ↦ rw (admin_adjust_done positive q q') (
              direction user agency_id key input v,
              refl,
              refl,
              ap (λ l. input.amount ∷ map (λ x. x.amount) l) log,
            )
          ]
    ]
  ]
