-- ===== src/Ui/Alternation.antt =====
-- The typing status that handleChatInput and its timer send (client/client_ui.cpp).
use Prim.Native.Char.{Char}
use asynchronous_messenger.Base.{
  ℕ, ◌-◌, String, Bool, true, false, not, ◌&&◌, ◌≡◌, refl, sym, subst, ap, ◌∙◌, arith, List, [],
  ◌∷◌, ◌++◌, map, append_assoc, append-nil, Option, some, if_cases, if_false, blank, push_back, ltb,
  ◌>>=◌,
}
use mathlib.Core.List.{map-append}
use asynchronous_messenger.Json.{JsonLib, Serializes}
use asynchronous_messenger.Client.{Client, ClientStateMachine, Net}
use asynchronous_messenger.Client.Machine.{typing_status, typing_request, is_chatting}
use asynchronous_messenger.Ui.{Ui, ChatInput, piece, rubbed_out}
use asynchronous_messenger.Ui.Screen.{put, call}
use asynchronous_messenger.Ui.Chat.{
  is_enter, is_backspace, is_printable, keep_input, press_key, read_key, tick_timer,
}
use asynchronous_messenger.Ui.Steps.{UiEvent, key, timer, step, run}
use asynchronous_messenger.Ui.Writing.{CanWrite, wrote, typing_call}

-- Each status is the opposite of the one before; what a line begins and ends with.
abbrev pub Alternates : Bool → List Bool → Bool → Type 0
Alternates b [] e = e ≡ b
Alternates b (f ∷ fs) e = (f ≡ not b) × Alternates f fs e

Alternates-append :
    (fs gs : List Bool) (a b e : Bool)
    → Alternates a fs b
    → Alternates b gs e
    → Alternates a (fs ++ gs) e
Alternates-append [] gs a b e h k = subst (λ x. Alternates x gs e) h k
Alternates-append (f ∷ fs) gs a b e (h, hs) k = (h, Alternates-append fs gs f b e hs k)

-- A key that does not end the line, or a round of the timer.
abbrev pub is_typing_event : UiEvent → Bool
is_typing_event (key ch) = not (is_enter ch)
is_typing_event timer = true
is_typing_event _ = false

abbrev pub all_typing : List (ℕ × UiEvent) → Bool
all_typing [] = true
all_typing ((now, e) ∷ es) = is_typing_event e && all_typing es

module _ {Json : Type 0} (lib : JsonLib Json) where
  -- From a line i at ui on, the statuses fs were sent, and the line is j at v.
  pub record Typed (i : ChatInput) (ui : Ui Json) (j : ChatInput) (v : Ui Json) (fs : List Bool)
      : Type 0 where
    pub machine : v.client.machine ≡ ui.client.machine
    pub open_yet : v.client.connection.connected ≡ ui.client.connection.connected
    pub sent :
        v.client.connection.sent
        ≡ ui.client.connection.sent ++ map (typing_request lib ui.client.machine.chat_target) fs
    pub alternates : Alternates i.is_typing fs j.is_typing

  Typed-append :
      (i j k : ChatInput) (ui v w : Ui Json) (fs gs : List Bool)
      → Typed i ui j v fs
      → Typed j v k w gs
      → Typed i ui k w (fs ++ gs)
  Typed-append i j k ui v w fs gs first rest =
      let asked : List Bool → List Json = map (typing_request lib ui.client.machine.chat_target) in
      let before = ui.client.connection.sent in
      record {
        machine = rest.machine ∙ first.machine;
        open_yet = rest.open_yet ∙ first.open_yet;
        sent =
            rest.sent
            ∙ ap
                (λ (m : ClientStateMachine).
                  v.client.connection.sent ++ map (typing_request lib m.chat_target) gs)
                first.machine
            ∙ ap (λ ms. ms ++ asked gs) first.sent
            ∙ append_assoc before (asked fs) (asked gs)
            ∙ ap (λ ms. before ++ ms)
                (sym (map-append (typing_request lib ui.client.machine.chat_target) fs gs));
        alternates =
            Alternates-append fs gs i.is_typing j.is_typing k.is_typing first.alternates
              rest.alternates;
      }

  -- A step of the line.
  abbrev TypedTo : ChatInput → Ui Json → Option (Ui Json) → Type 0
  TypedTo i ui next =
      (j : ChatInput) × (v : Ui Json) × (fs : List Bool) × (next ≡ some (keep_input j v))
      × Typed i ui j v fs

  -- Nothing is sent.
  unsent :
      (i : ChatInput) (ui : Ui Json) (j : ChatInput) (v : Ui Json)
      → v.client ≡ ui.client
      → j.is_typing ≡ i.is_typing
      → TypedTo i ui (some (keep_input j v))
  unsent i ui j v same typing = (
    j,
    v,
    [],
    refl,
    record {
      machine = ap (λ (c : Client Json). c.machine) same;
      open_yet = ap (λ (c : Client Json). c.connection.connected) same;
      sent = ap (λ (c : Client Json). c.connection.sent) same ∙ sym (append-nil _);
      alternates = typing;
    },
  )

  module _ (format_time : ℕ → String) (net : Net) (s : Serializes lib)
      (writes : net.writes ≡ true) where
    -- A status is sent that is the opposite of the one before.
    sends :
        (now : ℕ) (b : Bool) (i : ChatInput) (ui : Ui Json) (j : ChatInput) (v : Ui Json)
        (keep : Ui Json → Ui Json)
        → ((c : Client Json)
            → keep (record v { client = c }) ≡ keep_input j (record v { client = c }))
        → CanWrite ui.client
        → v.client ≡ ui.client
        → b ≡ not i.is_typing
        → j.is_typing ≡ b
        → TypedTo i ui (some (keep (call format_time lib net now (typing_status b) v)))
    sends now b i ui j v keep kept h same opposite typing =
        let m = typing_request lib v.client.machine.chat_target b in
        let raw = (s.dumps m).0 in
        let can : CanWrite v.client = subst CanWrite (sym same) h in
        (
          j,
          record v { client = wrote raw m v.client },
          b ∷ [],
          ap (λ (u : Ui Json). some (keep u))
                (typing_call lib net writes format_time now b raw v (s.dumps m).1 can)
              ∙ ap some (kept (wrote raw m v.client)),
          record {
            machine = ap (λ (c : Client Json). c.machine) same;
            open_yet = ap (λ (c : Client Json). c.connection.connected) same;
            sent =
                ap
                  (λ (c : Client Json).
                    c.connection.sent ++ typing_request lib c.machine.chat_target b ∷ [])
                  same;
            alternates = (opposite, typing);
          },
        )

    typed_key :
        (now : ℕ) (ch : Char) (i : ChatInput) (ui : Ui Json)
        → CanWrite ui.client
        → TypedTo i ui (some (press_key lib format_time net now ch i (keep_input i ui)))
    unfolding press_key
    typed_key now ch i ui h =
        let P : Ui Json → Type 0 = λ u. TypedTo i ui (some u) in
        let grown = push_back i.input ch in
        if_cases P (is_backspace ch) _ _
          (λ _.
            if_cases P (not (blank i.input)) _ _ (λ _. unsent i ui _ (put rubbed_out ui) refl refl)
              (λ _. unsent i ui _ ui refl refl))
          (λ _.
            if_cases P (is_printable ch) _ _
              (λ _.
                if_cases P (not i.is_typing && not (blank grown)) _ _
                  (λ first.
                    sends now true i ui
                      (record { input = grown; is_typing = true; last_keypress = now })
                      (put (piece (push_back "" ch)) (keep_input i ui))
                      (keep_input (record { input = grown; is_typing = true; last_keypress = now }))
                      (λ c. refl) h refl (ground (arith, first)) refl)
                  (λ _. unsent i ui _ (put (piece (push_back "" ch)) ui) refl refl))
              (λ _. unsent i ui _ ui refl refl))

    typed_tick :
        (now : ℕ) (i : ChatInput) (ui : Ui Json)
        → CanWrite ui.client
        → TypedTo i ui (some (tick_timer lib format_time net now i (keep_input i ui)))
    unfolding tick_timer
    typed_tick now i ui h =
        let quiet = record i { is_typing = false } in
        if_cases (λ (u : Ui Json). TypedTo i ui (some u))
          (ltb 1000 (now - i.last_keypress) && i.is_typing) _ _
          (λ over.
            sends now false i ui quiet (keep_input quiet ui) (λ u. u) (λ c. refl) h refl
              (ground (arith, over)) refl)
          (λ _. unsent i ui i ui refl refl)

    typed_event :
        (now : ℕ) (e : UiEvent) (i : ChatInput) (ui : Ui Json)
        → is_typing_event e ≡ true
        → CanWrite ui.client
        → TypedTo i ui (step lib format_time net now e (keep_input i ui))
    unfolding step read_key
    typed_event now (key ch) i ui ok h =
        subst (TypedTo i ui) (sym (if_false (is_enter ch) _ _ (ground (arith, ok))))
          (typed_key now ch i ui h)
    typed_event now timer i ui ok h = typed_tick now i ui h
    typed_event now _ i ui ok h = absurd (ground (arith, ok))

    -- While a line is typed in a chat with an open connection, writes succeed and every
    -- message can be serialized, whatever keys come but Enter, in any order with the rounds
    -- of the timer: the client sends nothing but typing status, to the partner of the chat,
    -- each the opposite of the one before, and the last one is what the line takes itself to
    -- have told.
    pub typing_alternates :
        (es : List (ℕ × UiEvent)) (i : ChatInput) (ui : Ui Json)
        → all_typing es ≡ true
        → CanWrite ui.client
        → (j : ChatInput) × (v : Ui Json) × (fs : List Bool) × (run lib format_time net es
              (keep_input i ui)
            ≡ some (keep_input j v))
          × Typed i ui j v fs
    unfolding run
    typing_alternates [] i ui ok h = unsent i ui i ui refl refl
    typing_alternates ((now, e) ∷ es) i ui ok h =
        let (j, v, fs, stepped, first) = typed_event now e i ui (ground (arith, ok)) h in
        let can : CanWrite v.client = record {
          in_chat =
              ap (λ (m : ClientStateMachine). is_chatting m.current_state) first.machine
              ∙ h.in_chat;
          open_yet = first.open_yet ∙ h.open_yet;
        } in
        let (k, w, gs, went, rest) = typing_alternates es j v (ground (arith, ok)) can in
        (
          k,
          w,
          fs ++ gs,
          ap (λ o. o >>= run lib format_time net es) stepped ∙ went,
          Typed-append i j k ui v w fs gs first rest,
        )
