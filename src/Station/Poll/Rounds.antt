-- ===== src/Station/Poll/Rounds.antt =====
-- elevio/elevio.go: how rounds of polls over several buttons make one.
use heis_test.Prelude.{
  [], ◌∷◌, subst, ℕ, ◌+◌, ◌<◌, ◌≡◌, sym, ◌∙◌, refl, List, ◌++◌, true, false, Option, arith, ◌⊎◌,
  inl, inr, member-append, member-append_left, member-append_right,
}
use mathlib.Core.List.{Memᴰ}
use heis_test.Station.Elevio.{ButtonType, ButtonEvent}
use heis_test.Station.Bounds.{Runs, ran, Runs->>=}
use heis_test.Station.Poll.{Pressed, is_missing, event, and_then}

-- The buttons of a building: up at every floor but the top one, down at every floor but the lowest,
-- and a cab button for each floor.
abbrev pub HasButton : ℕ → ℕ → ButtonType → Type 0
HasButton floors f ButtonType.hall_up = f + 1 < floors
HasButton floors f ButtonType.hall_down = (0 < f) × (f < floors)
HasButton floors f ButtonType.cab = f < floors

pub present : (floors f : ℕ) (b : ButtonType) → HasButton floors f b → is_missing floors f b ≡ false
present floors f ButtonType.hall_up h = ground arith
present floors f ButtonType.hall_down h = ground (arith, h.0)
present floors f ButtonType.cab h = refl

pub absent :
    (floors f : ℕ) (b : ButtonType)
    → f < floors
    → is_missing floors f b ≡ false
    → HasButton floors f b
absent floors f ButtonType.hall_up l e = ground arith
absent floors f ButtonType.hall_down l e = (ground arith, l)
absent floors f ButtonType.cab l e = l

-- One button.
abbrev pub Only : ℕ → ButtonType → ℕ → ButtonType → Type 0
Only f b g c = (g ≡ f) × (c ≡ b)

pub Only-subst :
    {f g : ℕ} {b c : ButtonType} (P : ℕ → ButtonType → Type 0) → Only f b g c → P f b → P g c
Only-subst {f} {g} {b} {c} P o x = subst (P g) (sym o.1) (subst (λ h. P h b) (sym o.0) x)

pub event_injective : (f g : ℕ) (b c : ButtonType) → event f b ≡ event g c → Only f b g c
event_injective f g b c e = (ground arith, ground arith)

-- No event stands in a list twice.
abbrev pub Once : List ButtonEvent → Type 0
Once [] = Unit
Once (ev ∷ evs) = (Memᴰ ev evs → ⊥) × Once evs

Once-append :
    (es fs : List ButtonEvent)
    → Once es
    → Once fs
    → ((ev : ButtonEvent) → Memᴰ ev es → Memᴰ ev fs → ⊥)
    → Once (es ++ fs)
Once-append [] fs h k apart = k
Once-append (e ∷ es) fs h k apart = (
  λ m. elim (member-append es m) [ inl n ↦ h.0 n | inr n ↦ apart e (Memᴰ.head refl) n ],
  Once-append es fs h.1 k (λ ev m. apart ev (Memᴰ.tail m)),
)

-- What polls of the buttons in `D` do, against the state before them.
module _ (floors : ℕ) (now : Pressed) where
  -- The event of a button that exists, is pressed now and was not before.
  pub record IsPress (D : ℕ → ButtonType → Type 0) (prev : Pressed) (ev : ButtonEvent)
      : Type 0 where
    pub floor : ℕ
    pub button : ButtonType
    pub same : ev ≡ event floor button
    pub among : D floor button
    pub exists : HasButton floors floor button
    pub pressed : now floor button ≡ true
    pub released : prev floor button ≡ false

  IsPress-map :
      {D E : ℕ → ButtonType → Type 0} {p q : Pressed} {ev : ButtonEvent} (x : IsPress D p ev)
      → E x.floor x.button
      → q x.floor x.button ≡ p x.floor x.button
      → IsPress E q ev
  IsPress-map x e same = record {
    floor = x.floor;
    button = x.button;
    same = x.same;
    among = e;
    exists = x.exists;
    pressed = x.pressed;
    released = same ∙ x.released;
  }

  pub record Polled (D : ℕ → ButtonType → Type 0) (prev : Pressed) (r : Pressed × List ButtonEvent)
      : Type 0 where
    pub sound : (ev : ButtonEvent) → Memᴰ ev r.1 → IsPress D prev ev
    pub once : Once r.1
    pub complete :
        (f : ℕ) (b : ButtonType)
        → D f b
        → HasButton floors f b
        → now f b ≡ true
        → prev f b ≡ false
        → Memᴰ (event f b) r.1
    pub read : (f : ℕ) (b : ButtonType) → D f b → HasButton floors f b → r.0 f b ≡ now f b
    pub kept : (f : ℕ) (b : ButtonType) → (D f b → HasButton floors f b → ⊥) → r.0 f b ≡ prev f b

  pub Polled-map :
      {D E : ℕ → ButtonType → Type 0} {prev : Pressed} {r : Pressed × List ButtonEvent}
      → ((f : ℕ) (b : ButtonType) → D f b → E f b)
      → ((f : ℕ) (b : ButtonType) → E f b → D f b)
      → Polled D prev r
      → Polled E prev r
  Polled-map to from h = record {
    sound = λ ev m. let x = h.sound ev m in IsPress-map x (to x.floor x.button x.among) refl;
    once = h.once;
    complete = λ f b d. h.complete f b (from f b d);
    read = λ f b d. h.read f b (from f b d);
    kept = λ f b n. h.kept f b (λ d. n (to f b d));
  }

  module _ {D E : ℕ → ButtonType → Type 0} (apart : (f : ℕ) (b : ButtonType) → D f b → E f b → ⊥)
      {prev p q : Pressed} {es fs : List ButtonEvent} (h : Polled D prev (p, es))
      (k : Polled E p (q, fs)) where
    -- The first polls leave the other buttons as they were.
    same_before : (f : ℕ) (b : ButtonType) → E f b → p f b ≡ prev f b
    same_before f b e = h.kept f b (λ d _. apart f b d e)

    no_event_of_both : (ev : ButtonEvent) → Memᴰ ev es → Memᴰ ev fs → ⊥
    no_event_of_both ev m n =
        let x = h.sound ev m in
        let y = k.sound ev n in
        let o = event_injective x.floor y.floor x.button y.button (sym x.same ∙ y.same) in
        apart y.floor y.button (Only-subst D o x.among) y.among

    pub Polled-append : Polled (λ f b. D f b ⊎ E f b) prev (q, es ++ fs)
    Polled-append = record {
      sound = λ ev m. elim (member-append es m) [
        | inl n ↦ let x = h.sound ev n in IsPress-map x (inl x.among) refl
        | inr n ↦
            let x = k.sound ev n in
            IsPress-map x (inr x.among) (sym (same_before x.floor x.button x.among))
      ];
      once = Once-append es fs h.once k.once no_event_of_both;
      complete = λ f b d has on off. elim d [
        | inl x ↦ member-append_left fs (h.complete f b x has on off)
        | inr x ↦ member-append_right es (k.complete f b x has on (same_before f b x ∙ off))
      ];
      read = λ f b d has. elim d [
        | inl x ↦ k.kept f b (λ y _. apart f b x y) ∙ h.read f b x has
        | inr x ↦ k.read f b x has
      ];
      kept = λ f b n. k.kept f b (λ y. n (inr y)) ∙ h.kept f b (λ x. n (inl x));
    }

  pub and_then-Polled :
      {D E : ℕ → ButtonType → Type 0} {prev : Pressed} {o : Option (Pressed × List ButtonEvent)}
      {next : Pressed → Option (Pressed × List ButtonEvent)}
      → ((f : ℕ) (b : ButtonType) → D f b → E f b → ⊥)
      → Runs (Polled D prev) o
      → ((p : Pressed) → Runs (Polled E p) (next p))
      → Runs (Polled (λ f b. D f b ⊎ E f b) prev) (and_then o next)
  and_then-Polled apart h k =
      Runs->>= h (λ r x. Runs->>= (k r.0) (λ t y. ran (Polled-append apart x y)))
