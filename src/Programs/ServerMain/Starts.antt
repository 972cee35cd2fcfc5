-- ===== src/Programs/ServerMain/Starts.antt =====
-- How main of server/server.cpp starts and how it ends.
use asynchronous_messenger.Base.{
  ℕ, ◌<◌, ◌%◌, ◌^◌, String, Option, none, some, List, [], ◌∷◌, ltb, length, append, to_string, ◌≡◌,
  ◌≢◌, ◌↔◌, ◌≤◌, refl, ap, sym, ◌∙◌, some_inj, ltb→ge, arith, inl, inr, Option-cases, if_cases,
}
use asynchronous_messenger.Base.Int.{ℤ, pos}
use asynchronous_messenger.Env.{Env}
use asynchronous_messenger.Database.{DbFile}
use asynchronous_messenger.Session.{World}
use asynchronous_messenger.Server.{start_server}
use asynchronous_messenger.Json.{JsonLib}
use asynchronous_messenger.Server.Reach.{Reach, started}
use asynchronous_messenger.Programs.Port.{short_of, ushort_of, low_bits}
use asynchronous_messenger.Programs.Port.Decimal.{atoi-to_string, ushort_of-short_of}
use asynchronous_messenger.Programs.ServerMain.{
  Host, Program, exited, serving, undefined, Made, thrown, made, shown_int, chosen_port, new_server,
  outcome, server_main,
}

module _ {Json : Type 0} (host : Host) (env : Env) (file : DbFile) where
  -- Given the decimal text of a number below 2 ^ 31 as its argument, if the acceptor can be put
  -- to listen on the number modulo 2 ^ 16 and the database can be opened and initialized, the
  -- server listens on the number modulo 2 ^ 16, so on the number itself if it is a port, and
  -- reports the number itself.
  pub port_bound :
      (program : String) (n : ℕ) (w : World Json)
      → n < 2 ^ 31
      → host.refuses (n % 2 ^ 16) ≡ none
      → host.unopened ≡ none
      → start_server env file ≡ some w
      → server_main host env file (program ∷ to_string n ∷ [])
        ≡ serving
            (n % 2 ^ 16)
            (append "Starting Asynchronous Messenger Server on port " (to_string n)
              ∷ append "Server listening on port " (to_string n)
              ∷ [])
            w
  unfolding server_main chosen_port new_server shown_int
  port_bound program n w small free opens starts =
      rw (atoi-to_string n small, server_main)
        (rw (ushort_of-short_of (pos n), new_server)
          (rw (free, new_server)
            (rw (opens, new_server)
              (rw (starts, new_server)
                (ap
                  (λ (port : ℕ).
                    serving port
                      (append "Starting Asynchronous Messenger Server on port " (to_string n)
                        ∷ append "Server listening on port " (to_string n)
                        ∷ [])
                      w)
                  (ushort_of-short_of (pos n)))))))

-- The status with which main has returned.
abbrev pub status : {Json : Type 0} → Program Json → Option ℕ
status (exited n out err) = some n
status (serving port out w) = none
status undefined = none

outcome-status : {Json : Type 0} (port : ℤ) (m : Made Json) → status (outcome port m) ≢ some 1
outcome-status port (thrown what) = λ e. ground (arith, e)
outcome-status port (made w) = λ e. ground (arith, e)

-- main returns 1 exactly if it is given more than one argument.
pub usage_exactly :
    (Json : Type 0) (host : Host) (env : Env) (file : DbFile) (argv : List String)
    → (status (server_main {Json = Json} host env file argv) ≡ some 1) ↔ (2 < length argv)
unfolding server_main
usage_exactly Json host env file argv =
    if_cases (λ (p : Program Json). (status p ≡ some 1) ↔ (2 < length argv)) (ltb 2 (length argv)) _
      _ (λ e. (λ _. ground (arith, e), λ _. refl))
      λ e. (
        elim (Option-cases (chosen_port argv)) [
          | inl none_chosen ↦ rw (none_chosen, server_main) (λ h. absurd (ground (arith, h)))
          | inr (port, chosen) ↦
              rw (chosen, server_main)
                (λ h. absurd (outcome-status port (new_server host env file port) h))
        ],
        λ lt. absurd (ground (arith, e, lt)),
      )

-- The object that a server was made with is the world that it starts from.
made-start :
    {Json : Type 0} (host : Host) (env : Env) (file : DbFile) (port : ℤ) (w : World Json)
    → new_server host env file port ≡ made w
    → start_server env file ≡ some w
unfolding new_server
made-start {Json} host env file port w =
    elim (Option-cases (host.refuses (ushort_of (short_of port)))) [
      | inr (what, e) ↦ rw (e, new_server) (λ h. absurd (ground (arith, h)))
      | inl e ↦
          rw (e, new_server)
            (elim (Option-cases host.unopened) [
              | inr (what, o) ↦ rw (o, new_server) (λ h. absurd (ground (arith, h)))
              | inl o ↦
                  rw (o, new_server)
                    (elim (Option-cases (start_server {Json = Json} env file)) [
                      | inl n ↦ rw (n, new_server) (λ h. absurd (ground (arith, h)))
                      | inr (v, m) ↦ rw (m, new_server) (λ h. ground (arith, h))
                    ])
            ])
    ]

abbrev world_of : {Json : Type 0} → Program Json → Option (World Json)
world_of (exited n out err) = none
world_of (serving port out w) = some w
world_of undefined = none

abbrev port_of : {Json : Type 0} → Program Json → Option ℕ
port_of (exited n out err) = none
port_of (serving port out w) = some port
port_of undefined = none

outcome-serving :
    {Json : Type 0} (port : ℤ) (m : Made Json) (bound : ℕ) (out : List String) (w : World Json)
    → outcome port m ≡ serving bound out w
    → (m ≡ made w) × (ushort_of (short_of port) ≡ bound)
outcome-serving port (thrown what) bound out w h = absurd (ground (arith, ap world_of h))
outcome-serving port (made v) bound out w h =
    (ap made (some_inj (ap world_of h)), some_inj (ap port_of h))

module _ {Json : Type 0} (lib : JsonLib Json) (hasher : String → ℕ) (host : Host) (env : Env)
    (file : DbFile) where
  -- Whatever its command line, if main of the server comes to serve, then it was given one
  -- argument at most, the port that it listens on has the low 16 bits of the number that it
  -- took from the command line, and the state of the server is one from which the states that
  -- the server can come to start, so that what holds of those holds of the program.
  pub serving-Reach :
      (argv : List String) (bound : ℕ) (out : List String) (w : World Json)
      → server_main host env file argv ≡ serving bound out w
      → (length argv ≤ 2)
        × ((port : ℤ) × (chosen_port argv ≡ some port) × (bound ≡ low_bits port))
        × Reach lib hasher file w
  unfolding server_main
  serving-Reach argv bound out w =
      if_cases
        (λ (p : Program Json).
          p ≡ serving bound out w
          → (length argv ≤ 2)
            × ((port : ℤ) × (chosen_port argv ≡ some port) × (bound ≡ low_bits port))
            × Reach lib hasher file w)
        (ltb 2 (length argv)) _ _ (λ e h. absurd (ground (arith, ap world_of h)))
        λ e. elim (Option-cases (chosen_port argv)) [
          | inl c ↦ rw (c, server_main) (λ h. absurd (ground (arith, ap world_of h)))
          | inr (port, c) ↦
              rw (c, server_main)
                λ h.
                  let (is_made, is_bound) =
                    outcome-serving port (new_server host env file port) bound out w h in
                  (
                    ltb→ge 2 (length argv) e,
                    (port, refl, sym is_bound ∙ ushort_of-short_of port),
                    started env (made-start host env file port w is_made),
                  )
        ]
