-- ===== src/Client/Reach.antt =====
-- What holds whatever calls a client has made.
use parallel_memory_allocato.Base.{
  ℕ, ◌+◌, ◌≤◌, ◌<◌, ◌≡◌, ◌≢◌, refl, sym, ◌∙◌, true, false, Bool-cases, inl, inr, ◌⊎◌, ◌==◌, Option,
  none, some, arith, Outcome, ok, stop, ltb, Returns, Returns-map,
}
use parallel_memory_allocato.Memlib.{null}
use parallel_memory_allocato.Client.{Allots, Frees}
use parallel_memory_allocato.Client.Trace.{
  Allocator, Client, set_held, Call, malloc, refused, release, Reach, start, next, InOrder, Serves,
}

returned {ℓ} : {A : Type ℓ} (P : A → Type 0) (m : Outcome A) (a : A) → m ≡ ok a → Returns P m → P a
returned P m a e r = let z = rw e at r in z

has_returned {ℓ} :
    {A : Type ℓ} (P : A → Type 0) (m : Outcome A) → Returns P m → (a : A) × (m ≡ ok a)
has_returned P (ok a) r = (a, refl)
has_returned P (stop e) r = elim r [ ]

module _ (al : Allocator) where
  abbrev Gets : al.State → al.View → ℕ → ℕ × al.State → Type 0
  Gets = Allots al.IsHeap al.live al.room

  abbrev Gives : al.State → al.View → ℕ → al.State → Type 0
  Gives = Frees al.IsHeap al.live al.room

  module _ {c : Client al} (o : InOrder al c) where
    -- A block that the client holds before and after a call.
    stays :
        (s : al.State) (w : al.View) (a n : ℕ)
        → c.held a ≡ some n
        → al.live s w a ≡ al.live c.state o.view a
        → al.room s w a ≡ al.room c.state o.view a
        → (al.live s w a ≡ true) × (n ≤ al.room s w a)
    stays s w a n h e q = let (alive, fits) = o.held_live a n h in (e ∙ alive, rw q fits)

    malloc-InOrder :
        (s : al.State) (size p : ℕ)
        → p ≢ null
        → Gets c.state o.view size (p, s)
        → InOrder al (record { state = s; held = set_held c.held p (some size) })
    malloc-InOrder s size p ne (w, v, inl z, kept) = absurd (ne z.0)
    malloc-InOrder s size p ne (w, v, inr (nn, fresh, fits, alive), kept) = record {
      view = w;
      heap = v;
      held_live = λ a n h. elim (Bool-cases (a == p)) [
        | inl t ↦
            let e : a ≡ p = ground arith in
            let z = rw t at h in (alive a ∙ rw t refl, rw e (ground arith))
        | inr f ↦
            let old = rw f at h in
            stays s w a n old (alive a ∙ rw f refl) (kept a (o.held_live a n old).0)
      ];
      live_held = λ a h. elim (Bool-cases (a == p)) [
        | inl t ↦ absurd (let z = rw t at h in cc)
        | inr f ↦ alive a ∙ rw f (o.live_held a (rw f at h))
      ];
    }

    refused-InOrder :
        (s : al.State) (size : ℕ)
        → Gets c.state o.view size (null, s)
        → InOrder al (record { state = s; held = c.held })
    refused-InOrder s size (w, v, inr z, kept) = absurd (z.0 refl)
    refused-InOrder s size (w, v, inl (z, same), kept) = record {
      view = w;
      heap = v;
      held_live = λ a n h. stays s w a n h (same a) (kept a (o.held_live a n h).0);
      live_held = λ a h. same a ∙ o.live_held a h;
    }

    release-InOrder :
        (s : al.State) (p : ℕ)
        → Gives c.state o.view p s
        → InOrder al (record { state = s; held = set_held c.held p none })
    release-InOrder s p (w, v, alive, kept) = record {
      view = w;
      heap = v;
      held_live = λ a n h. elim (Bool-cases (a == p)) [
        | inl t ↦ absurd (let z = rw t at h in cc)
        | inr f ↦
            let old = rw f at h in
            let same = alive a ∙ rw f refl in
            stays s w a n old same (kept a (same ∙ (o.held_live a n old).0))
      ];
      live_held = λ a h. elim (Bool-cases (a == p)) [
        | inl t ↦ alive a ∙ rw t refl
        | inr f ↦ alive a ∙ rw f (o.live_held a (rw f at h))
      ];
    }

    not_held : (p : ℕ) → al.live c.state o.view p ≡ false → (h : Option ℕ) → c.held p ≡ h → h ≡ none
    not_held p out none e = refl
    not_held p out (some n) e = absurd (let z = sym out ∙ (o.held_live p n e).0 in cc)

    Allots-Serves : (size : ℕ) (r : ℕ × al.State) → Gets c.state o.view size r → Serves al c size r
    Allots-Serves size (p, s) (w', v', inl z, kept) = inl z.0
    Allots-Serves size (p, s) (w', v', inr (nn, fresh, fits, alive), kept) =
        inr (nn, not_held p fresh (c.held p) refl, apart)
      where
        new : al.live s w' p ≡ true
        new = alive p ∙ ground arith

        apart : (q n : ℕ) → c.held q ≡ some n → (p + size ≤ q) ⊎ (q + n ≤ p)
        apart q n h =
            let (old, fitted) = o.held_live q n h in
            let same = kept q old in
            let still : al.live s w' q ≡ true = alive q ∙ ground arith in
            let ne : p ≢ q = (λ z.
              let here : al.live c.state o.view p ≡ true = rw z old in
              absurd (let x = sym fresh ∙ here in cc)) in
            elim (Bool-cases (ltb p q)) [
              | inl y ↦ inl (omega (arith, fits, al.apart s w' v' p q (ground arith) new still))
              | inr f ↦
                  let lt : q < p = ground arith in
                  inr (omega (arith, fitted, same, al.apart s w' v' q p lt still new))
            ]

  Call-InOrder : {c c' : Client al} → Call al c c' → InOrder al c → InOrder al c'
  Call-InOrder {c} (malloc {s = s} hint size p h lt e ne) o = malloc-InOrder o s size p ne (
      returned (Gets c.state o.view size) _ (p, s) e
        (al.allots c.state o.view o.heap hint size h lt))
  Call-InOrder {c} (refused {s = s} hint size h lt e) o = refused-InOrder o s size (
      returned (Gets c.state o.view size) _ (null, s) e
        (al.allots c.state o.view o.heap hint size h lt))
  Call-InOrder {c} (release {s = s} hint p size h held e) o = release-InOrder o s p (
      returned (Gives c.state o.view p) _ s e
        (al.frees c.state o.view o.heap hint p h (o.held_live p size held).0))

  -- Whatever calls a client has made, the heap is in order, the live blocks are those that it holds,
  -- and each of these has room for what the client asked for.
  pub Reach-InOrder : {c : Client al} → Reach al c → InOrder al c
  Reach-InOrder (start {s = s} h) =
      let (w, v, dead) = al.starts s h in
      record { view = w; heap = v; held_live = λ a n z. absurd (cc); live_held = λ a z. dead a }
  Reach-InOrder (next r k) = Call-InOrder k (Reach-InOrder r)

  module _ {c : Client al} (r : Reach al c) where
    -- Whatever calls a client has made, `mm_malloc` returns. It returns NULL or a block that the client
    -- does not hold, and the bytes that the client asks for overlap none of those that it asked for
    -- before and holds.
    pub Reach-Serves :
        (hint size : ℕ)
        → al.HasHint c.state hint
        → size < al.limit
        → Returns (Serves al c size) (al.mm_malloc hint size c.state)
    Reach-Serves hint size h lt =
        let o = Reach-InOrder r in
        Returns-map (Gets c.state o.view size) (Serves al c size) _
          (al.allots c.state o.view o.heap hint size h lt) (Allots-Serves o size)

    -- Whatever calls a client has made, `mm_free` of a block that it holds returns.
    pub Reach_frees :
        (hint p size : ℕ)
        → al.HasHint c.state hint
        → c.held p ≡ some size
        → (s : al.State) × (al.mm_free hint p c.state ≡ ok s)
    Reach_frees hint p size h held =
        let o = Reach-InOrder r in
        has_returned (Gives c.state o.view p) _
          (al.frees c.state o.view o.heap hint p h (o.held_live p size held).0)

    -- Whatever calls a client has made, the bytes that it asked for of two blocks that it holds do not
    -- overlap: those at the lower address end before the other block.
    pub Reach_apart : (p q m n : ℕ) → p < q → c.held p ≡ some m → c.held q ≡ some n → p + m ≤ q
    Reach_apart p q m n lt hp hq =
        let o = Reach-InOrder r in
        let (alive, fits) = o.held_live p m hp in
        omega (arith, fits, al.apart c.state o.view o.heap p q lt alive (o.held_live q n hq).0)
