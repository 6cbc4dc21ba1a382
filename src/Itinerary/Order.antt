-- ===== src/Itinerary/Order.antt =====
-- The sort of the segments by their sequence numbers: the result is in order, and where no two
-- segments have one number it does not depend on the order in which they come.
use mathlib.Core.Path.{subst, subst₂}
use mathlib.Core.Logic.{◌≢◌}
use mathlib.Core.List.{Permᴰ}
use muhammad_tours_and_trave.Prelude.{
  ◌≤◌, ◌<◌, ◌≡◌, refl, sym, ◌∙◌, ap, inl, inr, Bool-cases, List, [], ◌∷◌, arith, leb, All, All-imp,
}
use muhammad_tours_and_trave.Itinerary.{Segment, insert, sorted}

abbrev pub InOrder : Segment → List Segment → Type 0
InOrder s [] = Unit
InOrder s (t ∷ ts) = (s.sequence ≤ t.sequence) × InOrder t ts

abbrev pub IsOrdered : List Segment → Type 0
IsOrdered [] = Unit
IsOrdered (s ∷ ss) = InOrder s ss

insert-InOrder :
    (s t : Segment) (ts : List Segment)
    → t.sequence ≤ s.sequence
    → InOrder t ts
    → InOrder t (insert s ts)
unfolding insert
insert-InOrder s t [] le h = (le, tt)
insert-InOrder s t (u ∷ us) le h = elim (Bool-cases (leb s.sequence u.sequence)) [
  | inl first ↦ rw first (le, (ground (arith, first), h.1))
  | inr later ↦ rw later (h.0, insert-InOrder s u us (ground (arith, later)) h.1)
]

insert-IsOrdered : (s : Segment) (ts : List Segment) → IsOrdered ts → IsOrdered (insert s ts)
unfolding insert
insert-IsOrdered s [] h = tt
insert-IsOrdered s (t ∷ ts) h = elim (Bool-cases (leb s.sequence t.sequence)) [
  | inl first ↦ rw first (ground (arith, first), h)
  | inr later ↦ rw later (insert-InOrder s t ts (ground (arith, later)) h)
]

pub sorted-IsOrdered : (ss : List Segment) → IsOrdered (sorted ss)
unfolding sorted
sorted-IsOrdered [] = tt
sorted-IsOrdered (s ∷ ss) = insert-IsOrdered s (sorted ss) (sorted-IsOrdered ss)

-- The sequence numbers increase from one segment to the next.
abbrev pub Increase : Segment → List Segment → Type 0
Increase s [] = Unit
Increase s (t ∷ ts) = (s.sequence < t.sequence) × Increase t ts

abbrev pub IsNumbered : List Segment → Type 0
IsNumbered [] = Unit
IsNumbered (s ∷ ss) = Increase s ss

sorted-Increase : (s : Segment) (ss : List Segment) → Increase s ss → sorted (s ∷ ss) ≡ s ∷ ss
unfolding sorted insert
sorted-Increase s [] h = refl
sorted-Increase s (t ∷ ts) h = rw (sorted-Increase t ts h.1) (ground (arith, h.0))

pub sorted-IsNumbered : (ss : List Segment) → IsNumbered ss → sorted ss ≡ ss
unfolding sorted
sorted-IsNumbered [] h = refl
sorted-IsNumbered (s ∷ ss) h = sorted-Increase s ss h

abbrev Apart : Segment → Segment → Type 0
Apart s t = s.sequence ≢ t.sequence

abbrev AreApart : List Segment → Type 0
AreApart [] = Unit
AreApart (s ∷ ss) = All (Apart s) ss × AreApart ss

Increase-above :
    (s : Segment) (ss : List Segment) → Increase s ss → All (λ t. s.sequence < t.sequence) ss
Increase-above s [] h = tt
Increase-above s (u ∷ us) h =
    (h.0, All-imp _ _ us (λ t above. let first = h.0 in omega arith) (Increase-above u us h.1))

Increase-Apart : (s : Segment) (ss : List Segment) → Increase s ss → AreApart (s ∷ ss)
Increase-Apart s [] h = (tt, tt)
Increase-Apart s (u ∷ us) h = (
  All-imp _ _ (u ∷ us) (λ t above e. omega arith) (Increase-above s (u ∷ us) h),
  Increase-Apart u us h.1,
)

All-Permᴰ : (P : Segment → Type 0) {ss ts : List Segment} → Permᴰ ss ts → All P ss → All P ts
All-Permᴰ P Permᴰ.nil h = tt
All-Permᴰ P (Permᴰ.cons e d) h = (subst P e h.0, All-Permᴰ P d h.1)
All-Permᴰ P (Permᴰ.swap e e') h = (subst P e' h.1.0, (subst P e h.0, h.1.1))
All-Permᴰ P (Permᴰ.trans d d') h = All-Permᴰ P d' (All-Permᴰ P d h)

AreApart-Permᴰ : {ss ts : List Segment} → Permᴰ ss ts → AreApart ss → AreApart ts
AreApart-Permᴰ Permᴰ.nil h = tt
AreApart-Permᴰ (Permᴰ.cons {l₂ = ts} e d) h =
    (subst (λ s. All (Apart s) ts) e (All-Permᴰ _ d h.0), AreApart-Permᴰ d h.1)
AreApart-Permᴰ (Permᴰ.swap {a = a} {b = b} {l = l} e e') h =
    subst₂ (λ b' a'. AreApart (b' ∷ a' ∷ l)) e' e (((λ eq. h.0.0 (sym eq)), h.1.0), (h.0.1, h.1.1))
AreApart-Permᴰ (Permᴰ.trans d d') h = AreApart-Permᴰ d' (AreApart-Permᴰ d h)

insert-insert :
    (s t : Segment) (ss : List Segment)
    → Apart s t
    → insert s (insert t ss) ≡ insert t (insert s ss)
unfolding insert
insert-insert s t [] apart = ground (arith, apart)
insert-insert s t (u ∷ us) apart = ground (arith, apart, insert-insert s t us apart)

sorted-Permᴰ : {ss ts : List Segment} → Permᴰ ss ts → AreApart ss → sorted ss ≡ sorted ts
unfolding sorted
sorted-Permᴰ Permᴰ.nil h = refl
sorted-Permᴰ (Permᴰ.cons {a = a} {b = b} {l₁ = l} e d) h =
    ap (λ s. insert s (sorted l)) e ∙ ap (insert b) (sorted-Permᴰ d h.1)
sorted-Permᴰ (Permᴰ.swap {a = a} {b = b} {l = l} e e') h =
    insert-insert a b (sorted l) h.0.0
    ∙ subst₂ (λ b' a'. insert b (insert a (sorted l)) ≡ insert b' (insert a' (sorted l))) e' e refl
sorted-Permᴰ (Permᴰ.trans d d') h = sorted-Permᴰ d h ∙ sorted-Permᴰ d' (AreApart-Permᴰ d h)

-- However numbered segments are shuffled, the sort brings them back.
pub sorted-shuffled :
    (ss : List Segment) → IsNumbered ss → {ts : List Segment} → Permᴰ ss ts → sorted ts ≡ ss
unfolding sorted
sorted-shuffled [] h d = sym (sorted-Permᴰ d tt)
sorted-shuffled (s ∷ ss) h d =
    sym (sorted-Permᴰ d (Increase-Apart s ss h)) ∙ sorted-IsNumbered (s ∷ ss) h
