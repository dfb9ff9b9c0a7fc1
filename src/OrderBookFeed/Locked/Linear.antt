-- ===== src/OrderBookFeed/Locked/Linear.antt =====
-- The threads of libs/market-data/OrderBookFeed.h do what the calls do one after the other, in the
-- order in which they take the mutex.
use scrimmage.Prelude.{
  ℕ, ◌≡◌, ◌≢◌, refl, sym, ap, ◌∙◌, inl, inr, Bool, true, false, Option, none, some, List, [], ◌∷◌,
  ◌++◌, ◌&&◌, Every, Bool-cases, Option-cases, update, append-nil, update_self, update_ne,
  append_assoc, subst,
}
use native.Mathlib.Decide.{ℕ_discrete}
use scrimmage.OrderBookFeed.{Market, Book, Feed, notify, upsert, remove, upsert_side, snapshot}
use scrimmage.OrderBookFeed.Depth.{Command, upsert_call, remove_call, serve}
use scrimmage.OrderBookFeed.Locked.{
  Stage, outside, upserting, sorting, cutting, removing, notifying, leaving, looking, waiting,
  Shared, entry, change, next, is_acting, is_leaving, is_looking, act, enter, look, Step, enters,
  looks, acts, wakes, Steps, here, further, unused,
}

module _ (market : Market) where
  -- What is left of the call of a stage.
  abbrev pub finish : Stage market → Feed market → Feed market
  finish (upserting side o) f = upsert market side o f
  finish (sorting side) f =
      notify market (change market (cutting side) (change market (sorting side) f))
  finish (cutting side) f = notify market (change market (cutting side) f)
  finish (removing side id) f = remove market side id f
  finish notifying f = notify market f
  finish outside f = f
  finish leaving f = f
  finish looking f = f
  finish waiting f = f

  finish-next :
      (nested : Bool) (st : Stage market) (f : Feed market)
      → is_acting market st ≡ true
      → finish (next market nested st) (change market st f) ≡ finish st f
  unfolding change next upsert upsert_side remove
  finish-next nested (upserting true o) f h = refl
  finish-next nested (upserting false o) f h = refl
  finish-next nested (sorting side) f h = refl
  finish-next nested (cutting side) f h = refl
  finish-next nested (removing side id) f h = refl
  finish-next true notifying f h = refl
  finish-next false notifying f h = refl
  finish-next nested leaving f h = refl
  finish-next nested looking f h = refl
  finish-next nested outside f h = cc
  finish-next nested waiting f h = cc

  serve-snoc :
      (calls : List (Command market)) (c : Command market) (f : Feed market)
      → serve market (calls ++ c ∷ []) f ≡ finish (entry market c) (serve market calls f)
  unfolding entry
  serve-snoc [] (upsert_call side o) f = refl
  serve-snoc [] (remove_call side id) f = refl
  serve-snoc (upsert_call side o ∷ calls) c f = serve-snoc calls c (upsert market side o f)
  serve-snoc (remove_call side id ∷ calls) c f = serve-snoc calls c (remove market side id f)

  entry_inside : (c : Command market) → entry market c ≢ outside
  unfolding entry
  entry_inside (upsert_call side o) e = cc e
  entry_inside (remove_call side id) e = cc e

  next_inside :
      (nested : Bool) (st : Stage market)
      → is_acting market st ≡ true
      → is_leaving market st ≡ false
      → next market nested st ≢ outside
  unfolding next
  next_inside nested (upserting side o) h stays e = cc e
  next_inside nested (sorting side) h stays e = cc e
  next_inside nested (cutting side) h stays e = cc e
  next_inside nested (removing side id) h stays e = cc e
  next_inside true notifying h stays e = cc e
  next_inside false notifying h stays e = cc e
  next_inside nested looking h stays e = cc e
  next_inside nested leaving h stays e = cc
  next_inside nested outside h stays e = cc
  next_inside nested waiting h stays e = cc

  is_leaving_lem : (st : Stage market) → is_leaving market st ≡ true → st ≡ leaving
  is_leaving_lem leaving h = refl
  is_leaving_lem (upserting side o) h = cc
  is_leaving_lem (sorting side) h = cc
  is_leaving_lem (cutting side) h = cc
  is_leaving_lem (removing side id) h = cc
  is_leaving_lem notifying h = cc
  is_leaving_lem looking h = cc
  is_leaving_lem outside h = cc
  is_leaving_lem waiting h = cc

  is_looking_lem : (st : Stage market) → is_looking market st ≡ true → st ≡ looking
  is_looking_lem looking h = refl
  is_looking_lem (upserting side o) h = cc
  is_looking_lem (sorting side) h = cc
  is_looking_lem (cutting side) h = cc
  is_looking_lem (removing side id) h = cc
  is_looking_lem notifying h = cc
  is_looking_lem leaving h = cc
  is_looking_lem outside h = cc
  is_looking_lem waiting h = cc

  module _ (f0 : Feed market) where
    -- With no thread inside the feed is what the calls make of it one after the other; else one
    -- thread is inside, and it is so behind the rest of its call.
    abbrev pub IsHeld : Option ℕ → Shared market → Type 0
    IsHeld none s = ((t : ℕ) → s.stage t ≡ outside) × (s.feed ≡ serve market s.calls f0)
    IsHeld (some t) s =
        ((u : ℕ) → t ≢ u → s.stage u ≡ outside)
        × (s.stage t ≢ outside)
        × (finish (s.stage t) s.feed ≡ serve market s.calls f0)

    -- A copy of the book is of what the first so many calls make of it.
    abbrev pub IsSeen : List (Command market) → Book market × Book market → Type 0
    IsSeen calls copy =
        (first : List (Command market)) × (rest : List (Command market)) × (calls ≡ first ++ rest)
        × (copy ≡ snapshot market (serve market first f0))

    held_as : (o : Option ℕ) (s : Shared market) → s.owner ≡ o → IsHeld o s → IsHeld s.owner s
    held_as o s e h = subst (λ p. IsHeld p s) (sym e) h

    pub record IsLinear (s : Shared market) : Type 0 where
      pub held : IsHeld s.owner s
      pub copies : Every (IsSeen s.calls) s.seen

    pub holder : (s : Shared market) (t : ℕ) → IsLinear s → s.stage t ≢ outside → s.owner ≡ some t
    holder s t h inside = elim (Option-cases s.owner) [
      | inl free ↦ absurd (inside ((rw free at h.held).0 t))
      | inr (u, owned) ↦ elim (ℕ_discrete u t) [
        | yes same ↦ owned ∙ ap some same
        | no ne ↦ absurd (inside ((rw owned at h.held).0 t ne))
      ]
    ]

    acting_inside : (st : Stage market) → is_acting market st ≡ true → st ≢ outside
    acting_inside st acting e = cc (rw e at acting)

    more_calls :
        (calls : List (Command market)) (c : Command market)
        (copies : List (Book market × Book market))
        → Every (IsSeen calls) copies
        → Every (IsSeen (calls ++ c ∷ [])) copies
    more_calls calls c [] h = tt
    more_calls calls c (copy ∷ copies) ((first, rest, eq, same), h) = (
      (first, rest ++ c ∷ [], ap (λ cs. cs ++ c ∷ []) eq ∙ append_assoc first rest (c ∷ []), same),
      more_calls calls c copies h,
    )

    Every-snoc :
        (calls : List (Command market)) (copies : List (Book market × Book market))
        (copy : Book market × Book market)
        → Every (IsSeen calls) copies
        → IsSeen calls copy
        → Every (IsSeen calls) (copies ++ copy ∷ [])
    Every-snoc calls [] copy h last = (last, tt)
    Every-snoc calls (x ∷ xs) copy h last = (h.0, Every-snoc calls xs copy h.1 last)

    enter-IsLinear :
        (s : Shared market) (t : ℕ) (c : Command market)
        → s.owner ≡ none
        → IsLinear s
        → IsLinear (enter market t c s)
    unfolding enter
    enter-IsLinear s t c free h =
        let (nobody, same) = rw free at h.held in
        record {
          held = (
            λ u ne. update_ne s.stage t u (entry market c) ne ∙ nobody u,
            rw (update_self s.stage t (entry market c)) (entry_inside c),
            ap (λ st. finish st s.feed) (update_self s.stage t (entry market c))
                ∙ ap (finish (entry market c)) same
                ∙ sym (serve-snoc s.calls c f0),
          );
          copies = more_calls s.calls c s.seen h.copies;
        }

    look-IsLinear :
        (s : Shared market) (t : ℕ) → s.owner ≡ none → IsLinear s → IsLinear (look market t s)
    unfolding look
    look-IsLinear s t free h =
        let (nobody, same) = rw free at h.held in
        record {
          held = (
            λ u ne. update_ne s.stage t u looking ne ∙ nobody u,
            λ e. cc (sym (update_self s.stage t looking) ∙ e),
            ap (λ st. finish st s.feed) (update_self s.stage t looking) ∙ same,
          );
          copies = h.copies;
        }

    module _ (nested : Bool) (s : Shared market) (t : ℕ)
        (acting : is_acting market (s.stage t) ≡ true) (h : IsLinear s) where
      owned : s.owner ≡ some t
      owned = holder s t h (acting_inside (s.stage t) acting)

      its_call : IsHeld (some t) s
      its_call = subst (λ o. IsHeld o s) owned h.held

      abbrev after : Shared market
      after = act market nested t s

      abbrev on : Stage market
      on = next market (nested && s.feed.has_callback) (s.stage t)

      act-stage : (u : ℕ) → t ≢ u → update s.stage t on u ≡ outside
      act-stage u ne = update_ne s.stage t u on ne ∙ its_call.0 u ne

      act-held : IsHeld after.owner after
      unfolding act next change
      act-held = elim (Bool-cases (is_leaving market (s.stage t))) [
        | inl leaves ↦
            let at = is_leaving_lem (s.stage t) leaves in
            held_as none after (rw leaves refl) (
              λ u. elim (ℕ_discrete t u) [
                | no ne ↦ act-stage u ne
                | yes same ↦
                    rw (← same) (
                      update_self s.stage t on
                      ∙ ap (next market (nested && s.feed.has_callback)) at)
              ],
              ap (λ st. change market st s.feed) at
                  ∙ sym (ap (λ st. finish st s.feed) at)
                  ∙ its_call.2,
            )
        | inr stays ↦ held_as (some t) after (rw stays owned) (
          act-stage,
          λ e.
              next_inside (nested && s.feed.has_callback) (s.stage t) acting stays
                (sym (update_self s.stage t on) ∙ e),
          ap (λ st. finish st (change market (s.stage t) s.feed)) (update_self s.stage t on)
              ∙ finish-next (nested && s.feed.has_callback) (s.stage t) s.feed acting
              ∙ its_call.2,
        )
      ]

      act-copies : Every (IsSeen after.calls) after.seen
      unfolding act
      act-copies = elim (Bool-cases (is_looking market (s.stage t))) [
        | inr blind ↦ rw blind h.copies
        | inl copying ↦
            let at = is_looking_lem (s.stage t) copying in
            rw copying (
              Every-snoc s.calls s.seen (snapshot market s.feed) h.copies (
                s.calls,
                [],
                sym (append-nil s.calls),
                ap (snapshot market) (sym (ap (λ st. finish st s.feed) at) ∙ its_call.2),
              ))
      ]

      act-IsLinear : IsLinear after
      act-IsLinear = record { held = act-held; copies = act-copies }

    Step-IsLinear :
        {nested : Bool} {s u : Shared market} → Step market nested s u → IsLinear s → IsLinear u
    Step-IsLinear {s = s} (enters t c free out) h = enter-IsLinear s t c free h
    Step-IsLinear {s = s} (looks t free out) h = look-IsLinear s t free h
    Step-IsLinear {nested = nested} {s = s} (acts t acting) h = act-IsLinear nested s t acting h
    Step-IsLinear {s = s} (wakes t free waits) h = look-IsLinear s t free h

    Steps-IsLinear :
        {nested : Bool} {s u : Shared market} → Steps market nested s u → IsLinear s → IsLinear u
    Steps-IsLinear (here s) h = h
    Steps-IsLinear (further steps step) h = Step-IsLinear step (Steps-IsLinear steps h)

    unused-IsLinear : IsLinear (unused market f0)
    unfolding unused
    unused-IsLinear = record { held = (λ t. refl, refl); copies = tt }

    pub reached-IsLinear :
        (nested : Bool) (s : Shared market) → Steps market nested (unused market f0) s → IsLinear s
    reached-IsLinear nested s steps = Steps-IsLinear steps unused-IsLinear

    -- However the steps of any number of threads interleave: whenever no thread holds the mutex the
    -- feed is what the calls make of it one after the other, in the order in which they took the
    -- mutex, and each copy that `snapshot` returned is of what the first so many of them make of it.
    pub threads_refine :
        (nested : Bool) (s : Shared market)
        → Steps market nested (unused market f0) s
        → s.owner ≡ none
        → (s.feed ≡ serve market s.calls f0) × Every (IsSeen s.calls) s.seen
    threads_refine nested s steps free =
        let h = reached-IsLinear nested s steps in
        ((subst (λ o. IsHeld o s) free h.held).1, h.copies)
