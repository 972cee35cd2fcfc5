-- ===== src/Programs/DebugTest/Prints.antt =====
-- What client/debug_test.cpp prints of the messages of the server.
use asynchronous_messenger.Base.{
  ℕ, Bool, true, false, ◌≡◌, refl, ap, ◌∙◌, sym, some, List, [], ◌∷◌, ◌++◌, append_assoc,
  append-nil, if_true,
}
use asynchronous_messenger.Json.{JsonLib}
use asynchronous_messenger.Wire.{handle_nonempty, newline}
use asynchronous_messenger.Wire.Frames.{
  handled, handled-append, lines, split, split-lines, AllWhole, handle_all, receive_total,
}
use asynchronous_messenger.Client.{Client, Net, new_client}
use asynchronous_messenger.Client.Connection.{
  connect, start_receiving, send_request, send_raw, disconnect,
}
use asynchronous_messenger.Client.Transport.{RoundTrips, Dumped, nothing, more}
use asynchronous_messenger.Programs.DebugTest.{
  Debug, returned, print_message, print_read, print_reads, debug_request, debug_rest, debug_main,
}

abbrev pub joined : List (List ℕ) → List ℕ
joined [] = []
joined (c ∷ cs) = c ++ joined cs

module _ {Json : Type 0} (lib : JsonLib Json) where
  -- The connection with another buffer, and the messages that were printed.
  abbrev with_buffer : Client Json → List ℕ × List Json → Debug Json
  with_buffer c r = record {
    client = record c { connection = record c.connection { message_buffer = r.0 } };
    printed = r.1;
  }

  -- How the bytes were cut into reads makes no difference.
  print_reads-handled :
      (chunks : List (List ℕ)) (c : Client Json) (b : List ℕ) (p : List Json)
      → c.connection.receiving ≡ true
      → print_reads lib chunks (with_buffer c (handled (print_message lib) b p))
        ≡ with_buffer c (handled (print_message lib) (b ++ joined chunks) p)
  unfolding print_reads
  print_reads-handled [] c b p on =
      ap (λ (x : List ℕ). with_buffer c (handled (print_message lib) x p)) (sym (append-nil b))
  print_reads-handled (chunk ∷ chunks) c b p on =
      let h = print_message lib in
      ap (print_reads lib chunks) (
        if_true c.connection.receiving _ _ on
        ∙ rw (receive_total h (split b).1 chunk (handle_all h p (split b).0), print_read)
            (ap (with_buffer c) (sym (handled-append h b chunk p))))
      ∙ print_reads-handled chunks c (b ++ chunk) p on
      ∙ ap (λ (x : List ℕ). with_buffer c (handled h x p)) (append_assoc b chunk (joined chunks))

  module _ (trips : RoundTrips lib) where
    printed_once :
        (m : Json) (t : List ℕ) (p : List Json)
        → lib.dump m ≡ some t
        → handle_nonempty (print_message lib) t p ≡ p ++ m ∷ []
    unfolding handle_nonempty print_message
    printed_once m t p e =
        rw (trips.filled m t e, handle_nonempty)
          (rw (trips.parses m t e, print_message) (rw (e, print_message) refl))

    printed_all :
        (ms : List Json) (texts : List (List ℕ)) (p : List Json)
        → Dumped lib ms texts
        → handle_all (print_message lib) p texts ≡ p ++ ms
    printed_all [] [] p nothing = sym (append-nil p)
    printed_all [] (t ∷ ts) p d = elim d [ ]
    printed_all (m ∷ ms) [] p d = elim d [ ]
    printed_all (m ∷ ms) (t ∷ ts) p (more e d) =
        ap (λ (q : List Json). handle_all (print_message lib) q ts) (printed_once m t p e)
        ∙ printed_all ms ts (p ++ m ∷ []) d
        ∙ append_assoc p (m ∷ []) ms

    whole_lines : (ms : List Json) (texts : List (List ℕ)) → Dumped lib ms texts → AllWhole texts
    whole_lines [] [] nothing = tt
    whole_lines [] (t ∷ ts) d = elim d [ ]
    whole_lines (m ∷ ms) [] d = elim d [ ]
    whole_lines (m ∷ ms) (t ∷ ts) (more e d) = (trips.one_line m t e, whole_lines ms ts d)

    -- The client that has asked to log in.
    abbrev asked_of : List ℕ → Client Json
    asked_of request = record (new_client {Json = Json}) {
      connection = record (new_client {Json = Json}).connection {
        connected = true;
        receiving = true;
        sent = debug_request lib ∷ [];
        wire = request ++ newline ∷ [];
      };
    }

    connected_lem :
        (net : Net) → net.connects ≡ true → (connect net (new_client {Json = Json})).0 ≡ true
    unfolding connect
    connected_lem net e = rw e refl

    asked_lem :
        (connecting sending : Net) (request : List ℕ)
        → connecting.connects ≡ true
        → sending.writes ≡ true
        → lib.dump (debug_request lib) ≡ some request
        → send_request lib sending
            (debug_request lib)
            (start_receiving (connect connecting new_client).1)
          ≡ asked_of request
    unfolding connect start_receiving send_request send_raw
    asked_lem connecting sending request connects writes dumps =
        rw (dumps, send_request) (rw (connects, connect) (rw (writes, send_raw) refl))

    -- The program of debug_test.cpp, if it has a connection, its request can be written and
    -- what the server sends in the meantime are the lines of messages that parse to them
    -- again, however they are cut into reads: it has written one line, its request to log in,
    -- prints exactly these messages in their order, and is disconnected when it returns 0.
    pub debug_prints :
        (connecting sending : Net) (ms : List Json) (texts : List (List ℕ)) (request : List ℕ)
        (chunks : List (List ℕ))
        → connecting.connects ≡ true
        → sending.writes ≡ true
        → lib.dump (debug_request lib) ≡ some request
        → Dumped lib ms texts
        → joined chunks ≡ lines texts
        → (d : Debug Json) × (debug_main lib connecting sending chunks ≡ returned d)
          × (d.printed ≡ ms)
          × (d.client.connection.sent ≡ debug_request lib ∷ [])
          × (d.client.connection.wire ≡ request ++ newline ∷ [])
          × (d.client.connection.connected ≡ false)
    unfolding debug_main debug_rest disconnect split
    debug_prints connecting sending ms texts request chunks connects writes dumps dumped arrive =
        let asked = asked_of request in
        let h = print_message lib in
        let all_handled : handled h (lines texts) [] ≡ ([], ms) =
          rw (split-lines texts (whole_lines ms texts dumped))
            (ap (λ (p : List Json). ([], p)) (printed_all ms texts [] dumped)) in
        let heard : print_reads lib chunks (with_buffer asked ([], []))
            ≡ with_buffer asked ([], ms) =
          print_reads-handled chunks asked [] [] refl
          ∙ ap (λ (b : List ℕ). with_buffer asked (handled h b [])) arrive
          ∙ ap (with_buffer asked) all_handled in
        (
          record { client = disconnect (with_buffer asked ([], ms)).client; printed = ms },
          rw (dumps, debug_main) refl
              ∙ ap
                  (λ (a : Client Json).
                    debug_rest lib chunks (connect connecting (new_client {Json = Json})).0 a)
                  (asked_lem connecting sending request connects writes dumps)
              ∙ ap (λ (b : Bool). debug_rest lib chunks b asked) (connected_lem connecting connects)
              ∙ ap (λ (d : Debug Json). returned (record d { client = disconnect d.client })) heard,
          refl,
          refl,
          refl,
          refl,
        )
