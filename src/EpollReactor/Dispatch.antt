-- ===== src/EpollReactor/Dispatch.antt =====
-- Which callbacks a round of events makes.
use frame_work.Prelude.{
  ℕ, zero, suc, pos, negsuc, ℤ, length, ◌≤◌, ◌<◌, ◌≡◌, refl, sym, ap, ◌∙◌, Bool, true, false, ◌||◌,
  ◌&&◌, not, List, [], ◌∷◌, ◌++◌, Option, none, some, if◌then◌else◌, get_elem?, arith, subst,
}
use frame_work.EpollReactor.{Reactor}
use frame_work.EpollReactor.Round.{
  Ready, Call, on_read, on_write, on_error, Waited, failed, events, invoke, invoked, when, and_then,
  dispatch, dispatch_all, answered, run_once,
}

-- The descriptors of the events have slots below a number.
abbrev pub AllBelow : ℕ → List Ready → Type 0
AllBelow n [] = Unit {0}
AllBelow n (ev ∷ evs) = (ev.fd < n) × AllBelow n evs

abbrev pub ready_of : Waited → List Ready
ready_of failed = []
ready_of (events evs) = evs

-- on_error alone where the event tells of an error.
abbrev pub asks : Ready → Call → Bool
asks ev on_error = ev.epollpri || (ev.epollerr || ev.epollhup)
asks ev on_write = not (ev.epollpri || (ev.epollerr || ev.epollhup)) && ev.epollout
asks ev on_read = not (ev.epollpri || (ev.epollerr || ev.epollhup)) && ev.epollin

slot {ℓ} : {A : Type ℓ} (xs : List A) (i : ℕ) → i < length xs → (x : A) × (get_elem? xs i ≡ some x)
slot [] i h = absurd (omega arith)
slot (x ∷ xs) zero h = (x, refl)
slot (x ∷ xs) (suc i) h = slot xs i (omega arith)

module _ {ℓ κ μ} {K : Type ℓ} {H : Type κ} {W : Type μ} (reactor : W → Reactor K H)
    (callback : Call → H → ℕ → W → W) where
  -- The callbacks that the events ask for keep `I` when their handler is the one in the table at
  -- the time of the call.
  abbrev pub Keeps {ν} : (W → Type ν) → Ready → Type (κ ⊔ μ ⊔ ν)
  Keeps I ev =
      (c : Call) (h : H) (w : W)
      → asks ev c ≡ true
      → get_elem? (reactor w).handlers ev.fd ≡ some (some h)
      → I w
      → I (callback c h ev.fd w)

  abbrev pub AllKeep {ν} : (W → Type ν) → List Ready → Type (κ ⊔ μ ⊔ ν)
  AllKeep I [] = Unit {κ ⊔ μ ⊔ ν}
  AllKeep I (ev ∷ evs) = Keeps I ev × AllKeep I evs

  -- The state there is, which keeps `I`.
  abbrev pub Ends {ν} : (W → Type ν) → Option W → Type (μ ⊔ ν)
  Ends I o = (w : W) × (o ≡ some w) × I w

  module _ {ν} {I : W → Type ν} (n : ℕ)
      (wide : (w : W) → I w → n ≤ length (reactor w).handlers) where
    invoke-Ends :
        (c : Call) (ev : Ready) (w : W)
        → Keeps I ev
        → asks ev c ≡ true
        → ev.fd < n
        → I w
        → Ends I (invoke reactor callback c ev.fd w)
    unfolding invoke
    invoke-Ends c ev w k a b i =
        let fd = ev.fd in
        let (o, e) = slot (reactor w).handlers fd (omega (arith, wide w i)) in
        subst (λ o. Ends I (invoked reactor callback c fd w o)) (sym e) (invoked_lem o e)
      where
        invoked_lem :
            (o : Option H)
            → get_elem? (reactor w).handlers ev.fd ≡ some o
            → Ends I (invoked reactor callback c ev.fd w (some o))
        invoked_lem none e = (w, refl, i)
        invoked_lem (some h) e = (callback c h ev.fd w, refl, k c h w a e i)

    when-Ends :
        (b : Bool) (c : Call) (ev : Ready) (w : W)
        → Keeps I ev
        → (b ≡ true → asks ev c ≡ true)
        → ev.fd < n
        → I w
        → Ends I (when reactor callback b c ev.fd w)
    unfolding when
    when-Ends true c ev w k a l i = invoke-Ends c ev w k (a refl) l i
    when-Ends false c ev w k a l i = (w, refl, i)

    and_then-Ends :
        (o : Option W) (next : W → Option W)
        → Ends I o
        → ((w : W) → I w → Ends I (next w))
        → Ends I (and_then reactor callback o next)
    and_then-Ends o next (w, e, i) h =
        subst (λ o. Ends I (and_then reactor callback o next)) (sym e) (h w i)

    dispatch-Ends :
        (ev : Ready) (w : W)
        → Keeps I ev
        → ev.fd < n
        → I w
        → Ends I (dispatch reactor callback w ev)
    unfolding dispatch
    dispatch-Ends ev w k l i = branches (ev.epollpri || (ev.epollerr || ev.epollhup)) refl
      where
        branches :
            (bad : Bool)
            → (ev.epollpri || (ev.epollerr || ev.epollhup)) ≡ bad
            → Ends I (
                if bad
                then invoke reactor callback on_error ev.fd w
                else and_then reactor callback
                    (when reactor callback ev.epollout on_write ev.fd w)
                    (when reactor callback ev.epollin on_read ev.fd))
        branches true q = invoke-Ends on_error ev w k q l i
        branches false q =
            and_then-Ends _ _ (when-Ends ev.epollout on_write ev w k (λ t. rw (q, t) refl) l i)
              (λ w' i'. when-Ends ev.epollin on_read ev w' k (λ t. rw (q, t) refl) l i')

    all-Ends :
        (evs : List Ready) (w : W)
        → AllKeep I evs
        → AllBelow n evs
        → I w
        → Ends I (dispatch_all reactor callback w evs)
    unfolding dispatch_all
    all-Ends [] w k b i = (w, refl, i)
    all-Ends (ev ∷ evs) w (k, ks) (b, bs) i =
        and_then-Ends _ _ (dispatch-Ends ev w k b i) (λ w' i'. all-Ends evs w' ks bs i')

  answered-some {ν} :
      {I : W → Type ν} (s : ℤ) (o : Option W)
      → Ends I o
      → (w : W) × (answered reactor callback s o ≡ some (s, w)) × I w
  answered-some s o (w, e, i) = (w, ap (answered reactor callback s) e, i)

  abbrev pub status_of : Waited → ℤ
  status_of failed = negsuc 0
  status_of (events evs) = pos (length evs)

  -- Where a predicate of the state gives the table at least some number of slots, the descriptors
  -- of the events are below that number, and each callback that an event asks for (on_error alone
  -- on an error, else on_write and on_read) keeps the predicate when its handler is the one in the
  -- table at the time of the call: a round of run_once reads no slot outside the table, returns
  -- the number of events, or -1 where epoll_wait failed, and leaves a state with the predicate,
  -- whatever the callbacks do to the table in between.
  pub run_once-keeps {ν} :
      {I : W → Type ν} (w : W) (waited : Waited) (n : ℕ)
      → AllKeep I (ready_of waited)
      → ((w : W) → I w → n ≤ length (reactor w).handlers)
      → AllBelow n (ready_of waited)
      → I w
      → (w' : W) × (run_once reactor callback w waited ≡ some (status_of waited, w')) × I w'
  unfolding run_once
  run_once-keeps w failed n k wide b i = (w, refl, i)
  run_once-keeps w (events evs) n k wide b i = answered-some _ _ (all-Ends n wide evs w k b i)

  -- The calls that one event asks for, whatever the table holds.
  abbrev pub asked : Ready → List Call
  asked ev =
      if ev.epollpri || (ev.epollerr || ev.epollhup)
      then on_error ∷ []
      else ((if ev.epollout then on_write ∷ [] else [])
          ++ (if ev.epollin then on_read ∷ [] else []))

  abbrev pub called : Option (Option H) → Call → ℕ → W → W
  called (some (some h)) c fd w = callback c h fd w
  called _ c fd w = w

  -- Those calls, made to the handler that a table which does not change has for the descriptor.
  abbrev pub made : Option (Option H) → ℕ → W → List Call → W
  made o fd w [] = w
  made o fd w (c ∷ cs) = made o fd (called o c fd w) cs

  abbrev pub made_all : List (Option H) → W → List Ready → W
  made_all hs w [] = w
  made_all hs w (ev ∷ evs) = made_all hs (made (get_elem? hs ev.fd) ev.fd w (asked ev)) evs

  module _
      (still : (c : Call) (h : H) (fd : ℕ) (w : W)
        → (reactor (callback c h fd w)).handlers ≡ (reactor w).handlers) where
    -- A chain of calls with a table that stays as it is.
    chain : List Call → ℕ → W → Option W
    chain [] fd w = some w
    chain (c ∷ cs) fd w = and_then reactor callback (invoke reactor callback c fd w) (chain cs fd)

    called-still :
        (c : Call) (fd : ℕ) (w : W) (o : Option (Option H))
        → (reactor (called o c fd w)).handlers ≡ (reactor w).handlers
    called-still c fd w none = refl
    called-still c fd w (some none) = refl
    called-still c fd w (some (some h)) = still c h fd w

    invoked-called :
        (c : Call) (fd : ℕ) (w : W) (o : Option H)
        → invoked reactor callback c fd w (some o) ≡ some (called (some o) c fd w)
    invoked-called c fd w none = refl
    invoked-called c fd w (some h) = refl

    chain-made :
        (hs : List (Option H)) (cs : List Call) (fd : ℕ) (w : W)
        → fd < length hs
        → (reactor w).handlers ≡ hs
        → (chain cs fd w ≡ some (made (get_elem? hs fd) fd w cs))
          × ((reactor (made (get_elem? hs fd) fd w cs)).handlers ≡ hs)
    unfolding chain invoke
    chain-made hs [] fd w b e = (refl, e)
    chain-made hs (c ∷ cs) fd w b e =
        let o = get_elem? hs fd in
        let (h, s) = slot hs fd b in
        let q : get_elem? (reactor w).handlers fd ≡ o = ap (λ l. get_elem? l fd) e in
        let there : invoked reactor callback c fd w o ≡ some (called o c fd w) =
          subst (λ o. invoked reactor callback c fd w o ≡ some (called o c fd w)) (sym s)
            (invoked-called c fd w h) in
        let next = chain-made hs cs fd (called o c fd w) b (called-still c fd w o ∙ e) in
        (
          ap (λ a. and_then reactor callback a (chain cs fd))
                (ap (invoked reactor callback c fd w) q ∙ there)
              ∙ next.0,
          next.1,
        )

    dispatch-chain :
        (w : W) (ev : Ready) → dispatch reactor callback w ev ≡ chain (asked ev) ev.fd w
    unfolding dispatch chain when
    dispatch-chain w ev =
        branches (ev.epollpri || (ev.epollerr || ev.epollhup)) ev.epollout ev.epollin
      where
        fd : ℕ
        fd = ev.fd

        last : (o : Option W) → o ≡ and_then reactor callback o some
        last none = refl
        last (some w) = refl

        branches :
            (bad out in_ : Bool)
            → (if bad
                then invoke reactor callback on_error fd w
                else and_then reactor callback
                    (when reactor callback out on_write fd w)
                    (when reactor callback in_ on_read fd))
              ≡ chain
                  (if bad
                    then on_error ∷ []
                    else ((if out then on_write ∷ [] else [])
                        ++ (if in_ then on_read ∷ [] else [])))
                  fd
                  w
        branches true out in_ = last _
        branches false true true =
            ap (and_then reactor callback (invoke reactor callback on_write fd w))
              (λ i w'. last (invoke reactor callback on_read fd w') i)
        branches false true false = refl
        branches false false true = last _
        branches false false false = refl

    all-made :
        (hs : List (Option H)) (evs : List Ready) (w : W)
        → AllBelow (length hs) evs
        → (reactor w).handlers ≡ hs
        → dispatch_all reactor callback w evs ≡ some (made_all hs w evs)
    unfolding dispatch_all
    all-made hs [] w b e = refl
    all-made hs (ev ∷ evs) w (b, bs) e =
        let c = chain-made hs (asked ev) ev.fd w b e in
        ap (λ o. and_then reactor callback o (λ w'. dispatch_all reactor callback w' evs))
          (dispatch-chain w ev ∙ c.0)
        ∙ all-made hs evs (made (get_elem? hs ev.fd) ev.fd w (asked ev)) bs c.1

  -- Where no callback changes the table and each event has a slot in it, a round of run_once
  -- returns the number of events and makes, for each event in order, the calls that it asks for
  -- (on_error alone on an error, else on_write before on_read) to the handler of its descriptor,
  -- if there is one.
  pub run_once-made :
      (w : W) (evs : List Ready)
      → AllBelow (length (reactor w).handlers) evs
      → ((c : Call) (h : H) (fd : ℕ) (w : W)
          → (reactor (callback c h fd w)).handlers ≡ (reactor w).handlers)
      → run_once reactor callback w (events evs)
        ≡ some (pos (length evs), made_all (reactor w).handlers w evs)
  unfolding run_once
  run_once-made w evs b still =
      ap (answered reactor callback (pos (length evs)))
        (all-made still (reactor w).handlers evs w b refl)
