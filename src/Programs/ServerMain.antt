-- ===== src/Programs/ServerMain.antt =====
-- main of server/server.cpp, up to io_context.run(), whose callbacks are the module Server.
pub mod Starts
use asynchronous_messenger.Base.{
  ℕ, ◌+◌, String, Bool, if◌then◌else◌, Option, none, some, List, [], ◌∷◌, ltb, length, append,
  to_string,
}
use asynchronous_messenger.Base.Int.{ℤ, pos, negsuc}
use asynchronous_messenger.Env.{Env}
use asynchronous_messenger.Database.{DbFile}
use asynchronous_messenger.Session.{World}
use asynchronous_messenger.Server.{start_server}
use asynchronous_messenger.Programs.Port.{atoi, short_of, ushort_of}

-- What the system answers: the exception with which the acceptor cannot be opened, bound and put to
-- listen on a port, those with which the database cannot be opened and its tables not be created.
pub record Host : Type 0 where
  pub refuses : ℕ → Option String
  pub unopened : Option String
  pub uncreated : String

-- What main has come to: it has returned a status, it runs the callbacks of a server on a port, or
-- its behaviour is undefined. The texts are the lines of main itself, on std::cout and on std::cerr.
pub data Program (Json : Type 0) : Type 0 where
  exited : ℕ → List String → List String → Program Json
  serving : ℕ → List String → World Json → Program Json
  undefined : Program Json

-- A constructor that has thrown, or the object.
pub data Made (Json : Type 0) : Type 0 where
  thrown : String → Made Json
  made : World Json → Made Json

-- `std::cout << n` for an int
unfoldable pub shown_int : ℤ → String
shown_int (pos n) = to_string n
shown_int (negsuc n) = append "-" (to_string (n + 1))

-- The port of the command line; the first argument is the name of the program.
unfoldable pub chosen_port : List String → Option ℤ
unfolding atoi
chosen_port (program ∷ port ∷ rest) = atoi port
chosen_port _ = some (pos 9999)

abbrev pub starting : ℤ → String
starting port = append "Starting Asynchronous Messenger Server on port " (shown_int port)

abbrev pub listening : ℤ → String
listening port = append "Server listening on port " (shown_int port)

-- The rest of the block of main, and its catch block.
abbrev pub outcome : {Json : Type 0} → ℤ → Made Json → Program Json
outcome port (thrown what) = exited 0 (starting port ∷ []) (append "Exception: " what ∷ [])
outcome port (made w) = serving (ushort_of (short_of port)) (starting port ∷ listening port ∷ []) w

module _ {Json : Type 0} (host : Host) (env : Env) (file : DbFile) where
  -- The constructors of the acceptor and of Database, and the rest of Server::Server
  unfoldable pub new_server : ℤ → Made Json
  unfolding short_of ushort_of start_server
  new_server port = elim (host.refuses (ushort_of (short_of port))) [
    | some what ↦ thrown what
    | none ↦ elim host.unopened [
      | some what ↦ thrown what
      | none ↦ elim (start_server env file) [ none ↦ thrown host.uncreated | some w ↦ made w ]
    ]
  ]

  -- main
  unfoldable pub server_main : List String → Program Json
  unfolding new_server chosen_port shown_int short_of ushort_of
  server_main argv =
      if ltb 2 (length argv)
      then exited 1 [] ("Usage: server <port>" ∷ [])
      else elim (chosen_port argv) [ none ↦ undefined | some port ↦ outcome port (new_server port) ]
