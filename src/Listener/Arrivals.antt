-- ===== src/Listener/Arrivals.antt =====
-- The queries of an address over a run of `AsyncListener`: packets of all addresses, and timers.
use lscamoflash.Listener.Deferral.{respond_query_lem}
use lscamoflash.Incoming.{DnsIncoming, truncated}
use lscamoflash.Prelude.Dict.{Dict}
use lscamoflash.Listener.{
  Action, Listener, deferred_of, handle_query_or_defer, respond_query, respond, cancel_timers,
}
use lscamoflash.Prelude.{
  ℕ, Bool, Bool-cases, List, Text, [], any_of, arith, false, filter_by, if◌then◌else◌, inl, inr,
  none, not, refl, text_eq, text_eq_iff, ◌++◌, ◌∷◌, ◌≡◌, append-nil, ◌∙◌, true, ◌⊎◌,
}
use lscamoflash.Prelude.Dict

-- A query reaches the listener, or the timer of an address fires.
pub data QueryEvent : Type 0 where
  arrives : ℕ → ℕ → DnsIncoming → Text → QueryEvent
  fires : Text → QueryEvent

-- The packets that an event answers together, of its address
unfoldable pub answered_together : Action → List (List DnsIncoming)
answered_together (respond ms) = ms ∷ []
answered_together _ = []

unfoldable pub run_queries : Text → List QueryEvent → Listener → List (List DnsIncoming)
unfolding handle_query_or_defer respond_query answered_together
run_queries addr [] l = []
run_queries addr (arrives now delay m a ∷ es) l =
    let (l', action) = handle_query_or_defer now delay m a l in
    let rest = run_queries addr es l' in
    if text_eq a addr then answered_together action ++ rest else rest
run_queries addr (fires a ∷ es) l =
    let (l', ms) = respond_query none a l in
    let rest = run_queries addr es l' in if text_eq a addr then ms ∷ rest else rest

-- The packets of a list without the later ones with the bytes of an earlier one
unfoldable pub firsts : List DnsIncoming → List DnsIncoming
firsts [] = []
firsts (m ∷ ms) = m ∷ filter_by (λ d. not (text_eq m.data_ d.data_)) (firsts ms)

-- The same run without a listener: the truncated packets that came from the address since it was last
-- answered, in the order in which they came.
unfoldable pub batches : Text → List DnsIncoming → List QueryEvent → List (List DnsIncoming)
unfolding truncated firsts
batches addr came [] = []
batches addr came (arrives now delay m a ∷ es) =
    let deferred = batches addr (came ++ (m ∷ [])) es in
    let answered = (firsts came ++ (m ∷ [])) ∷ batches addr [] es in
    let rest = batches addr came es in
    if text_eq a addr then (if truncated m then deferred else answered) else rest
batches addr came (fires a ∷ es) =
    let answered = firsts came ∷ batches addr [] es in
    let rest = batches addr came es in if text_eq a addr then answered else rest

abbrev is_repeat : DnsIncoming → List DnsIncoming → Bool
is_repeat m ms = any_of (λ d. text_eq d.data_ m.data_) ms

abbrev unlike : DnsIncoming → List DnsIncoming → List DnsIncoming
unlike x ms = filter_by (λ d. not (text_eq x.data_ d.data_)) ms

unlike-snoc :
    (x m : DnsIncoming) (ms : List DnsIncoming)
    → unlike x (ms ++ (m ∷ []))
      ≡ (if text_eq x.data_ m.data_ then unlike x ms else unlike x ms ++ (m ∷ []))
unlike-snoc x m [] = ground arith
unlike-snoc x m (y ∷ ms) = ground (arith, unlike-snoc x m ms)

is_repeat-unlike :
    (x m : DnsIncoming) (ms : List DnsIncoming)
    → text_eq x.data_ m.data_ ≡ false
    → is_repeat m (unlike x ms) ≡ is_repeat m ms
is_repeat-unlike x m [] e = refl
is_repeat-unlike x m (y ∷ ms) e = ground (
  arith,
  e,
  is_repeat-unlike x m ms,
  text_eq_iff x.data_ m.data_,
  text_eq_iff x.data_ y.data_,
  text_eq_iff y.data_ m.data_,
)

firsts-snoc :
    (m : DnsIncoming) (ms : List DnsIncoming)
    → firsts (ms ++ (m ∷ []))
      ≡ (if is_repeat m (firsts ms) then firsts ms else firsts ms ++ (m ∷ []))
unfolding firsts
firsts-snoc m [] = refl
firsts-snoc m (x ∷ ms) = elim (Bool-cases (text_eq x.data_ m.data_)) [
  | inl e ↦ elim (Bool-cases (is_repeat m (firsts ms))) [
    | inl f ↦ rw (firsts-snoc m ms, f, e) refl
    | inr f ↦ rw (firsts-snoc m ms, f, unlike-snoc x m (firsts ms), e) refl
  ]
  | inr e ↦ elim (Bool-cases (is_repeat m (firsts ms))) [
    | inl f ↦ rw (firsts-snoc m ms, f, e, is_repeat-unlike x m (firsts ms) e) (rw f refl)
    | inr f ↦
        rw (firsts-snoc m ms, f, unlike-snoc x m (firsts ms), e, is_repeat-unlike x m (firsts ms) e)
          (rw f refl)
  ]
]

deferred_of-handle :
    (now delay : ℕ) (m : DnsIncoming) (a addr : Text) (l : Listener)
    → deferred_of addr (handle_query_or_defer now delay m a l).0 ≡ (
        if text_eq a addr
        then (if truncated m
            then (if is_repeat m (deferred_of a l)
                then deferred_of a l
                else deferred_of a l ++ (m ∷ []))
            else [])
        else deferred_of addr l)
unfolding handle_query_or_defer respond_query cancel_timers deferred_of
deferred_of-handle now delay m a addr l = ground (
  arith,
  text_eq_iff a addr,
  Dict.get-delete_text a addr l.deferred,
  Dict.get-insert_text a addr (deferred_of a l) l.deferred,
  Dict.get-insert_text a addr (deferred_of a l ++ (m ∷ [])) l.deferred,
)

answered-handle :
    (now delay : ℕ) (m : DnsIncoming) (a : Text) (l : Listener)
    → answered_together (handle_query_or_defer now delay m a l).1
      ≡ (if truncated m then [] else (deferred_of a l ++ (m ∷ [])) ∷ [])
unfolding handle_query_or_defer respond_query answered_together
answered-handle now delay m a l = elim (Bool-cases (truncated m)) [
  | inl t ↦ elim (Bool-cases (is_repeat m (deferred_of a l))) [
    | inl f ↦ rw (handle_query_or_defer, t, f) refl
    | inr f ↦ rw (handle_query_or_defer, t, f) refl
  ]
  | inr t ↦ rw (handle_query_or_defer, t) refl
]

-- The steps of a run, with the listener behind the step as an argument
run-arrives :
    (addr a : Text) (now delay : ℕ) (m : DnsIncoming) (es : List QueryEvent) (l : Listener)
    (ms : List (List DnsIncoming))
    → answered_together (handle_query_or_defer now delay m a l).1 ≡ ms
    → run_queries addr (arrives now delay m a ∷ es) l ≡ (
        if text_eq a addr
        then ms ++ run_queries addr es (handle_query_or_defer now delay m a l).0
        else run_queries addr es (handle_query_or_defer now delay m a l).0)
unfolding run_queries
run-arrives addr a now delay m es l ms e = rw e refl

arrive-batches :
    (addr a : Text) (now delay : ℕ) (m : DnsIncoming) (es : List QueryEvent)
    (came : List DnsIncoming)
    → batches addr came (arrives now delay m a ∷ es) ≡ (
        if text_eq a addr
        then (if truncated m
            then batches addr (came ++ (m ∷ [])) es
            else (firsts came ++ (m ∷ [])) ∷ batches addr [] es)
        else batches addr came es)
unfolding batches
arrive-batches addr a now delay m es came = refl

run-fires :
    (addr a : Text) (es : List QueryEvent) (l : Listener) (ms : List DnsIncoming)
    → (respond_query none a l).1 ≡ ms
    → run_queries addr (fires a ∷ es) l ≡ (
        if text_eq a addr
        then ms ∷ run_queries addr es (respond_query none a l).0
        else run_queries addr es (respond_query none a l).0)
unfolding run_queries
run-fires addr a es l ms e = rw e refl

fire-batches :
    (addr a : Text) (es : List QueryEvent) (came : List DnsIncoming)
    → batches addr came (fires a ∷ es)
      ≡ (if text_eq a addr then firsts came ∷ batches addr [] es else batches addr came es)
unfolding batches
fire-batches addr a es came = refl

none_came : [] ≡ firsts []
unfolding firsts
none_came = refl

-- Whether the event is of the address
at_address : (a addr : Text) → ((text_eq a addr ≡ true) × (a ≡ addr)) ⊎ (text_eq a addr ≡ false)
at_address a addr = ground (arith, text_eq_iff a addr)

-- Over any packets of any addresses and any timers, what is answered together for an address is what
-- came from it since it was last answered: the truncated packets in the order in which they came,
-- each once, and then the complete one that is answered, if it is no timer that fires. At the
-- beginning, what is deferred are the packets that came before, each once.
pub run_queries-batches :
    (addr : Text) (es : List QueryEvent) (came : List DnsIncoming) (l : Listener)
    → deferred_of addr l ≡ firsts came
    → run_queries addr es l ≡ batches addr came es
run_queries-batches addr [] came l e = unfold run_queries batches in refl
run_queries-batches addr (arrives now delay m a ∷ es) came l e =
    let l' = (handle_query_or_defer now delay m a l).0 in
    let after = deferred_of-handle now delay m a addr l in
    let answer = answered-handle now delay m a l in
    elim (at_address a addr) [
      | inr x ↦
          run-arrives addr a now delay m es l _ refl
          ∙ rw (arrive-batches addr a now delay m es came, x)
              (run_queries-batches addr es came l' (after ∙ rw x e))
      | inl (x, same) ↦
          let here : deferred_of a l ≡ firsts came = rw same e in
          elim (Bool-cases (truncated m)) [
            | inl t ↦
                run-arrives addr a now delay m es l [] (answer ∙ rw t refl)
                ∙ rw (arrive-batches addr a now delay m es came, x, t)
                    (run_queries-batches addr es (came ++ (m ∷ [])) l'
                      (after ∙ rw (x, t, here, firsts-snoc m came) refl))
            | inr t ↦
                let rest = run_queries-batches addr es [] l' (after ∙ rw (x, t) none_came) in
                run-arrives addr a now delay m es l ((firsts came ++ (m ∷ [])) ∷ [])
                  (answer ∙ rw (t, here) refl)
                ∙ rw (arrive-batches addr a now delay m es came, x, t) (rw rest refl)
          ]
    ]
run_queries-batches addr (fires a ∷ es) came l e =
    let l' = (respond_query none a l).0 in
    let (answer, gone, timer) = respond_query_lem none a addr l in
    elim (at_address a addr) [
      | inr x ↦
          run-fires addr a es l _ refl
          ∙ rw (fire-batches addr a es came, x)
              (run_queries-batches addr es came l' (gone ∙ rw x e))
      | inl (x, same) ↦
          let here : deferred_of a l ≡ firsts came = rw same e in
          let rest = run_queries-batches addr es [] l' (gone ∙ rw x none_came) in
          run-fires addr a es l (firsts came) (answer ∙ rw here (append-nil (firsts came)))
          ∙ rw (fire-batches addr a es came, x) (rw rest refl)
    ]
