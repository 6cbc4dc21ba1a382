-- ===== src/Auth/Rotation.antt =====
-- A refresh token is good for one use: `refresh` of apps/api/src/modules/auth/auth.service.ts.
use muhammad_tours_and_trave.Prelude.{
  ℕ, ◌+◌, ◌≡◌, ◌<◌, refl, sym, ◌∙◌, ap, subst, ◌==◌, ltb, true, Bool-cases, Option-cases, inl, inr,
  Option, none, some, List, [], ◌∷◌, is_some, find?-holds, update_where, All, All-imp, All-find?,
  All-update_where, ok, err, err-ok, unauthorized, Keeps, bind-Keeps, ◌>>◌, arith,
}
use muhammad_tours_and_trave.Auth.Text.{Text}
use muhammad_tours_and_trave.Auth.Model.{
  RefreshToken, Store, Services, Payload, access, session, two_factor_challenge, refresh_secret,
  AuthTokens, token_value,
}
use muhammad_tours_and_trave.Auth.Tokens.{
  load_authenticated_user, is_live, revoke_where, has_hash, find_live, issue_tokens, rotate,
  refresh_by, refresh,
}
use muhammad_tours_and_trave.Auth.Requests.{Request, handle_all}
use muhammad_tours_and_trave.Auth.Steps.{handle_all-kept}
use muhammad_tours_and_trave.Auth.Steps.Parts.{IsKept, load-Keeps, issue_tokens-Keeps}
use muhammad_tours_and_trave.Auth.Steps.Sessions.{refresh-Keeps}

module _ (services : Services) where
  abbrev pub hash_of : ℕ → ℕ
  hash_of i = services.sha256 (token_value services i)

  abbrev IsOf : ℕ → RefreshToken → Type 0
  IsOf n t = (t.token_hash ≡ hash_of t.id) × (t.id < n)

  -- Every row has the hash of the value that was drawn for it, under an id that was given out.
  pub record IsIssued (s : Store) : Type 0 where
    pub rows : All (IsOf s.next_id) s.refresh_tokens

  abbrev IsGone : ℕ → RefreshToken → Type 0
  IsGone i t = t.id ≡ i → is_some t.revoked_at ≡ true

  -- The row with that id, which was given out, is revoked.
  pub record IsSpent (i : ℕ) (s : Store) : Type 0 where
    pub given : i < s.next_id
    pub rows : All (IsGone i) s.refresh_tokens

  IsIssued-IsKept : IsKept services IsIssued
  IsIssued-IsKept = record {
    other = λ s s' same grows h. record {
      rows = subst (All (IsOf s'.next_id)) (sym same) (
          All-imp (IsOf s.next_id) (IsOf s'.next_id) s.refresh_tokens
            (λ t k. (k.0, omega (arith, k.1))) h.rows);
    };
    revoked = λ p now s h. record {
      rows = All-update_where (IsOf s.next_id) p _ s.refresh_tokens (λ t hit k. k) h.rows;
    };
    issued = λ now user label s h. record {
      rows = (
        (refl, omega arith),
        All-imp (IsOf s.next_id) (IsOf (s.next_id + 1)) s.refresh_tokens
            (λ t k. (k.0, omega (arith, k.1))) h.rows,
      );
    };
  }

  IsSpent-IsKept : (i : ℕ) → IsKept services (IsSpent i)
  IsSpent-IsKept i = record {
    other = λ s s' same grows h. record {
      given = omega (arith, h.given);
      rows = subst (All (IsGone i)) (sym same) h.rows;
    };
    revoked = λ p now s h. record {
      given = h.given;
      rows = All-update_where (IsGone i) p _ s.refresh_tokens (λ t hit k e. refl) h.rows;
    };
    issued = λ now user label s h. record {
      given = omega (arith, h.given);
      rows = (λ e. absurd (omega (arith, h.given, e)), h.rows);
    };
  }

  -- What two values have in common, they do not hash to.
  abbrev pub Differ : Type 0
  Differ = (i j : ℕ) → hash_of i ≡ hash_of j → i ≡ j

  -- Revoking the row that was found leaves no row that is live with that id.
  revoked-IsSpent :
      (i now : ℕ) (s : Store) → i < s.next_id → IsSpent i (revoke_where (λ t. t.id == i) now s)
  revoked-IsSpent i now s given = record { given = given; rows = go s.refresh_tokens }
    where
      go :
          (ts : List RefreshToken)
          → All
              (IsGone i)
              (update_where (λ t. t.id == i) (λ t. record t { revoked_at = some now }) ts)
      go [] = tt
      go (t ∷ ts) = elim (Bool-cases (t.id == i)) [
        | inl hit ↦ rw hit ((λ e. refl, go ts))
        | inr miss ↦ rw miss ((λ e. ground (arith, miss, e), go ts))
      ]

  -- A spent row is not found under its hash.
  find_live-IsSpent :
      Differ
      → (user i : ℕ) (s : Store) → IsIssued s
      → IsSpent i s
      → find_live user (hash_of i) s ≡ none
  find_live-IsSpent differ user i s issued spent =
      elim (Option-cases (find_live user (hash_of i) s)) [
        | inl e ↦ e
        | inr (t, e) ↦
            let p = is_live (has_hash user (hash_of i)) in
            let live = find?-holds p s.refresh_tokens e in
            let of = All-find? (IsOf s.next_id) p s.refresh_tokens issued.rows e in
            let gone = All-find? (IsGone i) p s.refresh_tokens spent.rows e in
            let hash : t.token_hash ≡ hash_of i = ground (arith, live) in
            let same : t.id ≡ i = differ t.id i (sym of.0 ∙ hash) in
            absurd (ground (arith, live, gone same))
      ]

  module _ (s : Store) (now : ℕ) where
    rotate-IsSpent :
        (user : ℕ) (stored : RefreshToken) {tokens : AuthTokens} {s' : Store}
        → stored.id < s.next_id
        → rotate services now user stored s ≡ (ok tokens, s')
        → IsSpent stored.id s'
    rotate-IsSpent user stored {tokens} {s'} given e =
        elim (Bool-cases (ltb stored.expires_at now)) [
          | inl late ↦
              let thrown : rotate services now user stored s ≡ (err unauthorized, s) =
                rw late refl in
              let wrong : err unauthorized ≡ ok tokens = ap (λ r. r.0) (sym thrown ∙ e) in
              absurd (err-ok wrong)
          | inr fresh ↦
              let I = IsSpent stored.id in
              let law = IsSpent-IsKept stored.id in
              let s1 = revoke_where (λ t. t.id == stored.id) now s in
              let rest =
                load_authenticated_user user
                >> issue_tokens services now user stored.device_label in
              let k : Keeps I rest =
                bind-Keeps I (load-Keeps services I law user)
                  (λ w. issue_tokens-Keeps services I law now user stored.device_label) in
              let ran : rest s1 ≡ (ok tokens, s') = sym (rw fresh refl) ∙ e in
              subst (λ r. I r.1) ran (k.kept s1 (revoked-IsSpent stored.id now s given))
        ]

    -- What a payload has to be, and what is found by it, where `refresh` returns.
    record Refreshed (p : Option Payload) (s' : Store) : Type 0 where
      user : ℕ
      jti : Text
      stored : RefreshToken
      is_session : p ≡ some (session user jti)
      found : find_live user (services.sha256 jti) s ≡ some stored
      spent : stored.id < s.next_id → IsSpent stored.id s'

    refresh_by-Refreshed :
        (p : Option Payload) {tokens : AuthTokens} {s' : Store}
        → refresh_by services now p s ≡ (ok tokens, s')
        → Refreshed p s'
    refresh_by-Refreshed none e = absurd (err-ok (ap (λ r. r.0) e))
    refresh_by-Refreshed (some (access user)) e = absurd (err-ok (ap (λ r. r.0) e))
    refresh_by-Refreshed (some (two_factor_challenge user label)) e =
        absurd (err-ok (ap (λ r. r.0) e))
    refresh_by-Refreshed (some (session user jti)) {tokens} {s'} e =
        elim (Option-cases (find_live user (services.sha256 jti) s)) [
          | inl missing ↦
              let thrown : refresh_by services now (some (session user jti)) s
                  ≡ (err unauthorized, s) =
                rw missing refl in
              absurd (err-ok (ap (λ r. r.0) (sym thrown ∙ e)))
          | inr (stored, found) ↦
              let ran : rotate services now user stored s ≡ (ok tokens, s') =
                sym (rw found refl) ∙ e in
              record {
                user = user;
                jti = jti;
                stored = stored;
                is_session = refl;
                found = found;
                spent = λ given. rotate-IsSpent user stored given ran;
              }
        ]

  refused :
      (user : ℕ) (jti : Text) (now : ℕ) (p : Option Payload) (s : Store)
      → ((q : Payload) → p ≡ some q → session user jti ≡ q)
      → find_live user (services.sha256 jti) s ≡ none
      → (refresh_by services now p s).0 ≡ err unauthorized
  refused user jti now none s steady missing = refl
  refused user jti now (some q) s steady missing =
      subst (λ x. (refresh_by services now (some x) s).0 ≡ err unauthorized) (steady q refl)
        (rw missing refl)

  -- Where the values that are drawn hash apart, every stored hash is that of the value drawn for its
  -- row, and what a token says does not change with the time: a refresh token that has been exchanged
  -- for a new pair is refused ever after, whatever is asked in between.
  pub refresh_once :
      Differ
      → (s : Store) (token : Text) (now later : ℕ) {tokens : AuthTokens} {s' : Store} → IsIssued s
      → ((p q : Payload)
          → services.verify refresh_secret token now ≡ some p
          → services.verify refresh_secret token later ≡ some q
          → p ≡ q)
      → refresh services now token s ≡ (ok tokens, s')
      → (qs : List (ℕ × Request))
      → (refresh services later token (handle_all services qs s')).0 ≡ err unauthorized
  unfolding refresh
  refresh_once differ s token now later {tokens} {s'} issued steady e qs =
      let r = refresh_by-Refreshed s now (services.verify refresh_secret token now) e in
      let live = is_live (has_hash r.user (services.sha256 r.jti)) in
      let of = All-find? (IsOf s.next_id) live s.refresh_tokens issued.rows r.found in
      let hit = find?-holds live s.refresh_tokens r.found in
      let hash : services.sha256 r.jti ≡ hash_of r.stored.id = sym (ground (arith, hit)) ∙ of.0 in
      let issued' : IsIssued s' =
        subst (λ x. IsIssued x.1) e
          ((refresh-Keeps services IsIssued IsIssued-IsKept now token).kept s issued) in
      let at_end = handle_all services qs s' in
      let issued'' = handle_all-kept services IsIssued IsIssued-IsKept qs s' issued' in
      let spent'' =
        handle_all-kept services (IsSpent r.stored.id) (IsSpent-IsKept r.stored.id) qs s'
          (r.spent of.1) in
      let missing : find_live r.user (services.sha256 r.jti) at_end ≡ none =
        ap (λ h. find_live r.user h at_end) hash
        ∙ find_live-IsSpent differ r.user r.stored.id at_end issued'' spent'' in
      refused r.user r.jti later (services.verify refresh_secret token later) at_end
        (λ q f. steady (session r.user r.jti) q r.is_session f) missing
