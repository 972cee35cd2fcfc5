-- ===== src/Ui/Typing.antt =====
-- Typing status from one client's request to the other's screen: client/client_state_machine.cpp,
-- server/json_parser.cpp, server/router.cpp, client/message_receiver.cpp and client/client_ui.cpp.
use asynchronous_messenger.Base.{
  ℕ, String, Bool, true, false, not, ◌&&◌, ◌==◌, string_eq, eq_iff, ◌≡◌, refl, sym, ap, ◌∙◌, arith,
  List, [], ◌∷◌, ◌++◌, some, if◌then◌else◌, if_true, if_false, blank, Bool-cases, inl, inr,
}
use asynchronous_messenger.Json.{JsonLib, JsonLaws, Serializes}
use asynchronous_messenger.Env.{Env}
use asynchronous_messenger.Wire.{newline}
use asynchronous_messenger.UserManager.{get_session_by_username}
use asynchronous_messenger.Session.{World}
use asynchronous_messenger.Session.Store.{send-sent}
use asynchronous_messenger.Router.{typing_message, send_typing_status}
use asynchronous_messenger.JsonParser.{is_session_authenticated, handle_request}
use asynchronous_messenger.Formatter.Lines.{format_typing_status}
use asynchronous_messenger.Client.{Net, typing, notify}
use asynchronous_messenger.Client.Hearing.{with_buffer}
use asynchronous_messenger.Client.Machine.{typing_request}
use asynchronous_messenger.Client.Protocol.{chats_understood}
use asynchronous_messenger.Client.Display.{typing_shown}
use asynchronous_messenger.Client.Transport.{RoundTrips}
use asynchronous_messenger.Ui.{Ui}
use asynchronous_messenger.Ui.Screen.{display_typing_status, hear}
use asynchronous_messenger.Ui.Steps.{arrived, step, UiReach}
use asynchronous_messenger.Ui.Invariant.{StatusInv}
use asynchronous_messenger.Ui.Reach.{UiReach-UiInv}
use asynchronous_messenger.Ui.Arrival.{CanHear, line_heard}

nothing_shown : (s : String) → blank s ≡ true → s ≡ ""
unfolding blank
nothing_shown String.[] h = refl
nothing_shown (String.◌∷◌ c s) h = absurd (ground (arith, h))

module _ {Json : Type 0} (format_time : ℕ → String) (now : ℕ) where
  -- What is shown is what the partner has told last.
  told_last :
      (name : String) (b : Bool) (ui : Ui Json)
      → StatusInv ui
      → (ui.in_chat_mode && name == ui.current_chat_target) ≡ true
      → (display_typing_status now name b ui).current_typing_status ≡ format_typing_status name b
  unfolding display_typing_status format_typing_status
  told_last name true ui inv here = refl
  told_last name false ui inv here =
      let is_partner : name ≡ ui.current_chat_target =
        (eq_iff name ui.current_chat_target).0 (ground (arith, here)) in
      elim (Bool-cases (blank ui.current_typing_status)) [
        | inl none_shown ↦
            ap (λ (u : Ui Json). u.current_typing_status)
              (if_false (not (blank ui.current_typing_status) && ui.current_typing_user == name) _ _
                (ground (arith, none_shown)))
            ∙ nothing_shown ui.current_typing_status none_shown
        | inr shown ↦
            let same : (ui.current_typing_user == name) ≡ true =
              (eq_iff ui.current_typing_user name).1 ((inv shown).1 ∙ sym is_partner) in
            ap (λ (u : Ui Json). u.current_typing_status)
              (if_true (not (blank ui.current_typing_status) && ui.current_typing_user == name) _ _
                (ground (arith, shown, same)))
      ]

  heard_typing :
      (name : String) (b : Bool) (ui : Ui Json)
      → StatusInv ui
      → (hear format_time now (typing name b) ui).current_typing_status ≡ (
          if ui.in_chat_mode && name == ui.current_chat_target
          then format_typing_status name b
          else ui.current_typing_status)
  unfolding hear
  heard_typing name b ui inv =
      elim (Bool-cases (ui.in_chat_mode && name == ui.current_chat_target)) [
        | inl here ↦
            ap (λ (u : Ui Json). u.current_typing_status) (if_true _ _ _ here)
            ∙ told_last name b ui inv here
            ∙ sym (if_true _ _ _ here)
        | inr other ↦
            ap (λ (u : Ui Json). u.current_typing_status) (if_false _ _ _ other)
            ∙ sym (if_false _ _ _ other)
      ]

module _ {Json : Type 0} (lib : JsonLib Json) (laws : JsonLaws lib) (trips : RoundTrips lib)
    (hasher : String → ℕ) (format_time : ℕ → String) (net : Net) (now : ℕ) where
  -- A client's typing status, from a session that is logged in, to the name of a user who is
  -- logged in, while every message can be serialized and what is serialized parses to the
  -- message again: the server sends one message to the receiver's session, and when its line
  -- arrives at a client that listens, whose buffer is empty, in any state that the user
  -- interface comes to while it runs, the typing status that is shown is what the sender has
  -- told, if the user interface is in the chat with the sender, and is as before if it is not.
  pub typing_displayed :
      (env : Env) (target : String) (is_typing : Bool) (sid session : ℕ) (w : World Json)
      (ui : Ui Json)
      → Serializes lib
      → is_session_authenticated lib env sid w ≡ true
      → get_session_by_username target w.manager ≡ some session
      → UiReach lib format_time ui
      → CanHear ui.client
      → let w' = handle_request lib hasher env (typing_request lib target is_typing) sid w in
        let sender = (w.sessions sid).username in
        (m : Json) × (raw : List ℕ) × (v : Ui Json) × ((w'.sessions session).sent
          ≡ (w.sessions session).sent ++ m ∷ [])
        × (lib.dump m ≡ some raw)
        × (step lib format_time net now (arrived (raw ++ newline ∷ [])) ui ≡ some v)
        × (v.current_typing_status ≡ (
            if ui.in_chat_mode && sender == ui.current_chat_target
            then format_typing_status sender is_typing
            else ui.current_typing_status))
  unfolding send_typing_status
  typing_displayed env target b sid k w ui s auth online r hears =
      let sender = (w.sessions sid).username in
      let m = typing_message lib env sender b in
      let (raw, dump) = s.dumps m in
      let before = record ui { client = with_buffer [] (notify (typing sender b) ui.client) } in
      let inv : StatusInv before = (UiReach-UiInv lib format_time ui r).status in
      (
        m,
        raw,
        hear format_time now (typing sender b) before,
        rw (chats_understood lib laws hasher env target "" b sid w auth).1
            (rw (online, send_typing_status) (send-sent lib k m w raw dump)),
        dump,
        line_heard lib trips net format_time now m (typing sender b) raw ui dump
            (typing_shown lib laws env net sender b ui.client) hears,
        heard_typing format_time now sender b before inv,
      )
