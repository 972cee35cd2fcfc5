-- ===== src/Ui/Invariant.antt =====
-- The state of ClientUI between two turns of its threads (client/client_ui.cpp).
use Prim.Native.Char.{Char}
use asynchronous_messenger.Base.{
  ℕ, String, Bool, true, false, ◌&&◌, ◌≡◌, refl, sym, subst, arith, Option, none, some, some_inj,
  if_cases, blank, push_back, pop_back, inl, inr, Bool-cases,
}
use asynchronous_messenger.Formatter.Lines.{format_typing_status}
use asynchronous_messenger.Json.{JsonLib}
use asynchronous_messenger.Client.{ClientState, Net}
use asynchronous_messenger.Client.Machine.{Action}
use asynchronous_messenger.Client.Partner.{HasPartner, NamesPartner, act-HasPartner}
use asynchronous_messenger.Ui.{Ui, ChatInput}
use asynchronous_messenger.Ui.Screen.{call}
use asynchronous_messenger.Ui.Chat.{is_printable}
use asynchronous_messenger.Ui.Calls.{Frame, frame, Displays, call_keeps, call-frame, call-client}

-- A text of printable ASCII characters.
unfoldable pub all_printable : String → Bool
all_printable String.[] = true
all_printable (String.◌∷◌ c s) = is_printable c && all_printable s

pub all_printable-push_back :
    (s : String) (c : Char)
    → is_printable c ≡ true
    → all_printable s ≡ true
    → all_printable (push_back s c) ≡ true
unfolding all_printable push_back
all_printable-push_back String.[] c p h = rw p refl
all_printable-push_back (String.◌∷◌ d s) c p h = elim (Bool-cases (is_printable d)) [
  | inl e ↦ rw e (all_printable-push_back s c p (ground (arith, h)))
  | inr e ↦ absurd (ground (arith, e, h))
]

pub all_printable-pop_back :
    (s : String) → all_printable s ≡ true → all_printable (pop_back s) ≡ true
unfolding all_printable pop_back
all_printable-pop_back String.[] h = refl
all_printable-pop_back (String.◌∷◌ d s) h =
    if_cases (λ t. all_printable t ≡ true) (blank s) _ _ (λ _. refl)
      (λ _. elim (Bool-cases (is_printable d)) [
        | inl e ↦ rw e (all_printable-pop_back s (ground (arith, h)))
        | inr e ↦ absurd (ground (arith, e, h))
      ])

-- The threads of a chat run exactly while the user interface is in a chat, which is with somebody
-- who has a name; keys are read in a chat only, and what was typed is printable ASCII.
pub record FrameInv (f : Frame) : Type 0 where
  pub thread : f.chat_thread ≡ f.in_chat_mode
  pub thread_running : f.chat_thread_running ≡ f.in_chat_mode
  pub cleanup_running : f.typing_cleanup_running ≡ f.in_chat_mode
  pub named : f.in_chat_mode ≡ true → blank f.current_chat_target ≡ false
  pub reading :
      (i : ChatInput)
      → f.chat_input ≡ some i
      → (f.in_chat_mode ≡ true) × (all_printable i.input ≡ true)

-- A typing status that is shown is that of the partner of the chat.
abbrev pub StatusInv : {Json : Type 0} → Ui Json → Type 0
StatusInv ui =
    blank ui.current_typing_status ≡ false
    → (ui.in_chat_mode ≡ true)
      × (ui.current_typing_user ≡ ui.current_chat_target)
      × (ui.current_typing_status ≡ format_typing_status ui.current_chat_target true)

pub record UiInv {Json : Type 0} (ui : Ui Json) : Type 0 where
  pub framed : FrameInv (frame ui)
  pub status : StatusInv ui
  pub partner : HasPartner ui.client

-- What holds of the state after a step, if the program goes on.
abbrev pub IfRunning {ℓ} : {A : Type 0} → (A → Type ℓ) → Option A → Type ℓ
IfRunning P none = Unit
IfRunning P (some a) = P a

module _ {Json : Type 0} where
  displays-StatusInv : Displays {Json = Json} StatusInv
  unfolding blank
  displays-StatusInv = record {
    shown = λ s ui h. h;
    forgotten = λ ui h shown. absurd (ground (arith, shown));
    told = λ now ui on h shown. (on, refl, refl);
  }

  pub new_input-FrameInv :
      (i : ChatInput) (ui : Ui Json)
      → FrameInv (frame ui)
      → ui.in_chat_mode ≡ true
      → all_printable i.input ≡ true
      → FrameInv (frame (record ui { chat_input = some i }))
  new_input-FrameInv i ui h on printable = record {
    thread = h.thread;
    thread_running = h.thread_running;
    cleanup_running = h.cleanup_running;
    named = h.named;
    reading =
        λ j e. (on, subst (λ (k : ChatInput). all_printable k.input ≡ true) (some_inj e) printable);
  }

  pub no_input-FrameInv :
      (ui : Ui Json) → FrameInv (frame ui) → FrameInv (frame (record ui { chat_input = none }))
  no_input-FrameInv ui h = record {
    thread = h.thread;
    thread_running = h.thread_running;
    cleanup_running = h.cleanup_running;
    named = h.named;
    reading = λ j e. absurd (ground (arith, e));
  }

  -- The menus change no more of the frame than `running` and `at_menu`.
  pub menus-FrameInv :
      (b : Bool) (m : Option ClientState) (ui : Ui Json)
      → FrameInv (frame ui)
      → FrameInv (frame (record ui { running = b; at_menu = m }))
  menus-FrameInv b m ui h = record {
    thread = h.thread;
    thread_running = h.thread_running;
    cleanup_running = h.cleanup_running;
    named = h.named;
    reading = h.reading;
  }

module _ {Json : Type 0} (lib : JsonLib Json) (format_time : ℕ → String) (net : Net) (now : ℕ) where
  -- A call of the client's objects keeps the invariant.
  pub call-UiInv :
      (a : Action) (ui : Ui Json)
      → NamesPartner a
      → UiInv ui
      → UiInv (call format_time lib net now a ui)
  call-UiInv a ui names h = record {
    framed = subst FrameInv (sym (call-frame lib format_time net now a ui)) h.framed;
    status = call_keeps lib format_time net now a ui displays-StatusInv h.status;
    partner =
        subst HasPartner (sym (call-client lib format_time net now a ui))
          (act-HasPartner lib net a ui.client names h.partner);
  }
