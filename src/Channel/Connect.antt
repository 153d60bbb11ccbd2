-- ===== src/Channel/Connect.antt =====
-- Connections of channel.hpp: identifiers, the order of notifications, and what a connected function
-- receives.
use cplease.Base.{
  ℕ, ◌+◌, ◌≤◌, ◌<◌, ◌≡◌, refl, sym, ap, ◌∙◌, true, false, ltb, ◌==◌, List, [], ◌∷◌, ◌++◌, ◌>>=◌,
  >>=_assoc, >>=-some, fun_ext, arith,
}
use cplease.Word.{size_mod, add_size}
use cplease.Channel.{
  Link, Source, NotifyFunction, notify, register_notify_function, erase_id,
  unregister_notify_function,
}

module _ {ℓ κ} {A : Type ℓ} {S : Type κ} where
  -- The identifiers in a list of notify functions are below a bound.
  abbrev pub IdsBelow : ℕ → List (ℕ × NotifyFunction S A) → Type 0
  IdsBelow n [] = Unit {0}
  IdsBelow n ((id, func) ∷ funcs) = (id < n) × IdsBelow n funcs

  IdsBelow-mono :
      (m n : ℕ) (funcs : List (ℕ × NotifyFunction S A))
      → m ≤ n
      → IdsBelow m funcs
      → IdsBelow n funcs
  IdsBelow-mono m n [] le h = tt
  IdsBelow-mono m n ((id, func) ∷ funcs) le h = (omega arith, IdsBelow-mono m n funcs le h.1)

  IdsBelow-append :
      (n : ℕ) (fs gs : List (ℕ × NotifyFunction S A))
      → IdsBelow n fs
      → IdsBelow n gs
      → IdsBelow n (fs ++ gs)
  IdsBelow-append n [] gs hf hg = hg
  IdsBelow-append n ((id, func) ∷ fs) gs hf hg = (hf.0, IdsBelow-append n fs gs hf.1 hg)

  -- A list with no function of that identifier is left as it is.
  erase_id-absent :
      (n : ℕ) (funcs : List (ℕ × NotifyFunction S A))
      → IdsBelow n funcs
      → erase_id n funcs ≡ (funcs, 0)
  unfolding erase_id
  erase_id-absent n [] h = refl
  erase_id-absent n ((id, func) ∷ funcs) h =
      let differ : (id == n) ≡ false = ground arith in rw (differ, erase_id-absent n funcs h.1) refl

  erase_id-last :
      (n : ℕ) (func : NotifyFunction S A) (funcs : List (ℕ × NotifyFunction S A))
      → IdsBelow n funcs
      → erase_id n (funcs ++ ((n, func) ∷ [])) ≡ (funcs, 1)
  unfolding erase_id
  erase_id-last n func [] h = let same : (n == n) ≡ true = ground arith in rw same refl
  erase_id-last n func ((id, g) ∷ funcs) h =
      let differ : (id == n) ≡ false = ground arith in
      rw (differ, erase_id-last n func funcs h.1) refl

  -- A notification runs the functions in the order of their registration.
  notify-append :
      (fs gs : List (ℕ × NotifyFunction S A)) (link : Link S A) (count : ℕ)
      → notify (fs ++ gs) link count ≡ (notify fs link count >>= λ l. notify gs l count)
  unfolding notify
  notify-append [] gs link count = refl
  notify-append ((id, func) ∷ fs) gs link count =
      ap (λ k. func link count >>= k) (fun_ext λ l. notify-append fs gs l count)
      ∙ sym (>>=_assoc (func link count) (λ l. notify fs l count) (λ l. notify gs l count))

  notify_one :
      (id : ℕ) (func : NotifyFunction S A) (link : Link S A) (count : ℕ)
      → notify ((id, func) ∷ []) link count ≡ func link count
  unfolding notify
  notify_one id func link count = >>=-some (func link count)

  -- While no identifier has wrapped, registering gives a new identifier: all identifiers stay below
  -- the counter, the new function runs after those that are there, and unregistering by the new
  -- identifier restores exactly the functions that were there and says so; by any other
  -- identifier that was never given out it changes nothing and says so.
  pub register-unregister :
      (source : Source S A) (func : NotifyFunction S A) (link : Link S A) (count other : ℕ)
      → IdsBelow source.notify_function_id_counter source.notif_funcs
      → source.notify_function_id_counter + 1 < size_mod
      → source.notify_function_id_counter < other
      → let (source', id) = register_notify_function source func in
        IdsBelow source'.notify_function_id_counter source'.notif_funcs
        × (notify source'.notif_funcs link count
            ≡ (notify source.notif_funcs link count >>= λ l. func l count))
        × ((unregister_notify_function source' id).0.notif_funcs ≡ source.notif_funcs)
        × ((unregister_notify_function source' id).1 ≡ true)
        × (unregister_notify_function source' other ≡ (source', false))
  unfolding register_notify_function unregister_notify_function
  register-unregister source func link count other below small more =
      let n = source.notify_function_id_counter in
      let funcs = source.notif_funcs in
      let next : add_size n 1 ≡ n + 1 = omega arith in
      let last = erase_id-last n func funcs below in
      let far : IdsBelow other (funcs ++ ((n, func) ∷ [])) =
        IdsBelow-append other funcs ((n, func) ∷ [])
          (IdsBelow-mono n other funcs (omega arith) below) (more, tt) in
      (
        rw next (
            IdsBelow-append (n + 1) funcs ((n, func) ∷ [])
              (IdsBelow-mono n (n + 1) funcs (omega arith) below) (omega arith, tt)),
        notify-append funcs ((n, func) ∷ []) link count
            ∙ ap (λ k. notify funcs link count >>= k) (fun_ext λ l. notify_one n func l count),
        ap (λ e. e.0) last,
        ap (λ e. ltb 0 e.1) last,
        rw (erase_id-absent other (funcs ++ ((n, func) ∷ [])) far) refl,
      )
