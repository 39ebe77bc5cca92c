-- ===== src/HubPrograms.antt =====
-- The command line programs of net/hub/pub.cc and net/hub/sub.cc: what their arguments ask for, and what
-- their callbacks do with the client. `atoi` is a parameter; its `int` is the number of its 32 bits.
pub mod Commands
mod Tests
use summer.Prelude.{
  ℕ, zero, suc, ◌%◌, ◌^◌, Bool, true, false, ◌||◌, ◌==◌, if◌then◌else◌, List, [], ◌∷◌, ◌++◌, Option,
  none, some,
}
use summer.Decimal.{Text, front, behind}
use summer.Codec.{same}
use summer.Sockets.{Sockaddr, Inet, of_host_port}
use summer.PubSubClient
use summer.PubSubClient.{Client, connected, publish, subscribe}

-- `find(':') != npos`
abbrev pub has_colon : Text → Bool
has_colon [] = false
has_colon (x ∷ t) = x == b':' || has_colon t

-- What the arguments of `pub` ask for: to print how it is used, with or without the form for the standard
-- input; to publish the lines of the standard input; or to publish one content.
pub data PubCommand : Type 0 where
  pub_usage pub_address_usage : PubCommand
  publish_input : Sockaddr → Text → PubCommand
  publish_once : Sockaddr → Text → Text → PubCommand

-- What the arguments of `sub` ask for.
pub data SubCommand : Type 0 where
  sub_usage : SubCommand
  subscribe_to : Sockaddr → List Text → SubCommand

abbrev pub dash : Text
dash = b'-' ∷ []

module _ (net : Inet) (atoi : Text → ℕ) where
  -- `InetAddress peerAddr(ip, port)` of what stands before the colon and behind it.
  unfoldable pub peer_addr : Text → Sockaddr
  peer_addr hostport = of_host_port net (front b':' hostport) (atoi (behind b':' hostport) % 2 ^ 16)

  -- `main` of pub.cc, of all the arguments with the name of the program.
  unfoldable pub pub_command : List Text → PubCommand
  pub_command (program ∷ hostport ∷ topic ∷ content ∷ []) =
      if has_colon hostport
      then if same content dash
        then publish_input (peer_addr hostport) topic
        else publish_once (peer_addr hostport) topic content
      else pub_address_usage
  pub_command _ = pub_usage

  -- `main` of sub.cc.
  unfoldable pub sub_command : List Text → SubCommand
  sub_command (program ∷ hostport ∷ topic ∷ topics) =
      if has_colon hostport then subscribe_to (peer_addr hostport) (topic ∷ topics) else sub_usage
  sub_command _ = sub_usage

pub data Effect : Type 0 where
  -- what the client does
  by_client : PubSubClient.Effect → Effect
  -- `client->disconnect()` and `g_loop->quit()`
  disconnected quit : Effect

abbrev pub by_clients : List PubSubClient.Effect → List Effect
by_clients [] = []
by_clients (e ∷ es) = by_client e ∷ by_clients es

-- `connection` of pub.cc.
unfoldable pub pub_connection : (ℕ → Bool) → Client → Text → Text → List Effect
pub_connection is_connected c topic content =
    if connected is_connected c
    then by_clients (publish is_connected c topic content) ++ (disconnected ∷ [])
    else quit ∷ []

-- The loop over the standard input: the client and its connection are what they are at each line.
unfoldable pub publish_lines : Text → List (Text × Client × (ℕ → Bool)) → List Effect
publish_lines topic [] = disconnected ∷ []
publish_lines topic ((line, c, is_connected) ∷ lines) =
    by_clients (publish is_connected c topic line) ++ publish_lines topic lines

-- The loop of `connection` of sub.cc.
unfoldable pub subscribe_all : (ℕ → Bool) → Client → List Text → List Effect
subscribe_all is_connected c [] = []
subscribe_all is_connected c (topic ∷ topics) =
    by_clients (subscribe is_connected c topic) ++ subscribe_all is_connected c topics

unfoldable pub sub_connection : (ℕ → Bool) → Client → List Text → List Effect
sub_connection is_connected c topics =
    if connected is_connected c then subscribe_all is_connected c topics else []
