-- ===== src/Transport/Delegation.antt =====
-- Which transport a call goes to.
use connect_bidi_web.Common.{◌≡◌, refl, ap, ◌∙◌, List, [], ◌∷◌, ◌++◌, map}
use connect_bidi_web.Transport.{
  CallTypes, AnyTransport, UnaryArguments, StreamArguments, create_composite_transport,
  create_auto_transport, SwappableTransport, construct, swap, unary, stream, Use, swaps,
  calls_unary, calls_stream, Promise, of_unary, of_stream, run,
}

module _ (T : CallTypes) where
  pub data Call : Type 0 where
    unary_call : UnaryArguments T → Call
    stream_call : StreamArguments T → Call

  -- A call as a use of the swappable transport.
  abbrev pub use_of : Call → Use T
  use_of (unary_call call) = calls_unary call
  use_of (stream_call call) = calls_stream call

  -- A call answered by one transport for the unary RPCs and one for the others.
  abbrev pub answer : AnyTransport T → AnyTransport T → Call → Promise T
  answer u s (unary_call call) = of_unary (u.unary call)
  answer u s (stream_call call) = of_stream (s.stream call)

  run-append_swap :
      (t : SwappableTransport T) (us vs : List (Use T)) (next : AnyTransport T)
      → run T t (us ++ swaps next ∷ vs) ≡ run T t us ++ run T (construct T next) vs
  unfolding run swap
  run-append_swap t [] vs next = refl
  run-append_swap t (swaps other ∷ us) vs next = run-append_swap (swap T t other) us vs next
  run-append_swap t (calls_unary call ∷ us) vs next =
      ap (◌∷◌ (of_unary (unary T t call))) (run-append_swap t us vs next)
  run-append_swap t (calls_stream call ∷ us) vs next =
      ap (◌∷◌ (of_stream (stream T t call))) (run-append_swap t us vs next)

  run-composite :
      (u s : AnyTransport T) (calls : List Call)
      → run T (construct T (create_auto_transport T u s)) (map use_of calls)
        ≡ map (answer u s) calls
  unfolding run unary stream create_auto_transport create_composite_transport
  run-composite u s [] = refl
  run-composite u s (unary_call call ∷ calls) =
      ap (◌∷◌ (of_unary (u.unary call))) (run-composite u s calls)
  run-composite u s (stream_call call ∷ calls) =
      ap (◌∷◌ (of_stream (s.stream call))) (run-composite u s calls)

  -- After a swappable transport is given an automatic transport, whatever was done before it, each
  -- unary call is answered by the unary transport and each other call by the streaming one, with all
  -- arguments as they were; the earlier calls have the answers of the transports before.
  pub run-swaps_composite :
      (t : SwappableTransport T) (us : List (Use T)) (u s : AnyTransport T) (calls : List Call)
      → run T t (us ++ swaps (create_auto_transport T u s) ∷ map use_of calls)
        ≡ run T t us ++ map (answer u s) calls
  run-swaps_composite t us u s calls =
      run-append_swap t us (map use_of calls) (create_auto_transport T u s)
      ∙ ap (◌++◌ (run T t us)) (run-composite u s calls)
