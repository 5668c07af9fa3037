-- ===== src/Lib.antt =====
-- The SEPP of oai-cn5g: the security edge protection proxy between two 5G networks.
--
-- The parts, and which file models which. Paths are from the repository's root.
--   * Telescopic models src/sepp_app/sepp_telescopic_fqdn_mapping.cpp: is_roaming_partner,
--     parse_fqdn, fqdn_to_mapping, mapping_to_fqdn and get_telescopic_mapping. parse_plmn is what
--     parse_fqdn does behind ".5gc.".
--   * Jose models src/sepp_app/sepp_JOSE.cpp: base64url_encode, base64url_decode,
--     apply_jwe_encryption and decrypt_jwe_payload. gcm_encrypt and gcm_decrypt are the chains of
--     OpenSSL calls within the last two.
--   * Handshake models src/sepp_app/sepp_n32c_handshake.cpp: the state here, the operations in
--     Handshake.Capability, Handshake.Parameters and Handshake.Termination under the names of the
--     source. Handshake.Messages orders them: an event is a request of the peer, a response to this
--     SEPP or a parameter request that it creates, and `run` handles a list of events.
--   * Forward models src/sepp_app/sepp_n32f_forward.cpp: Forward.Url has url_decode and
--     extract_plmn_from_path, Forward.Aad the text of a message, Forward.Target the request to the
--     local network function, Forward.Reformat and Forward.Process the messages of PRINS, and
--     Forward.Direct the forwarding with TLS.
--   * App models src/sepp_app/sepp_app.cpp: App.Procedures has the constructor, the procedures that
--     a SEPP starts and stop, App.Service the service requests of local network functions,
--     App.Handlers the handlers of the peer's requests, and App.Lifecycle the whole from start to
--     stop with the NRF client. handle_n32c stands for the four of N32-c.
--   * Server, Nbi and Sbi model src/api-server/sepp-http2-nbi-server.cpp and
--     src/api-server/sepp-http2-sbi-server.cpp from a whole request to a response. Nbi.Routes and
--     Sbi.Routes have the routes that they register, Server.Lifecycle start and stop as steps of two
--     threads.
--   * Profile models src/sepp_app/sepp_profile.cpp and .hpp: the data and the setters, Profile.Write
--     both to_json, Profile.Read both from_json.
--   * Event models src/sepp_app/sepp_event.cpp and task_manager.cpp, Nrf src/sepp_app/sepp_nrf.cpp:
--     registration, heartbeat and deregistration over one state, which also keeps what was sent.
--   * SeppConfig models the SEPP's own section in src/sepp_app/sepp_config.cpp, Options the command
--     line in src/oai_sepp/options.cpp, SeppConfig.ApiList get_api_list.
--   * Program models src/oai_sepp/main.cpp: main up to where it serves, and the signal handler, with
--     what it calls as a list of actions.
-- The NBI calls App.Handlers, which calls the handshake or the forwarding; the SBI calls
-- App.Service and the telescopic mapping. Http has the client and the ladder on method names that
-- two functions share. Base, Search, Result, Dict, Decimal, Handler and Json carry them all. The
-- modules below a part prove what the end of this comment lists, and Examples applies it.
--
-- How the code is read.
--   * A std::string is a list of bytes, a natural number each; find and substr are as in the
--     library, with npos and std::out_of_range as none. An unordered map is an association list of
--     distinct keys, whose order stands for the order of the walk.
--   * A function that returns bool and fills an out parameter returns a Result: ok with the value,
--     fail for false, thrown for an exception. A handler returns a Handled, which keeps what it
--     changed when it fails. `std::to_string` and `std::stoi` are Decimal.
--   * The parameters are nlohmann::json (Json.JsonLib), the OpenAPI classes (Models.Models), the
--     HTTP client (Http.Client), OpenSSL (Jose.Bio, Jose.Evp), the address functions and slices of
--     the common source (Profile.Net), YAML (SeppConfig.Yaml), the Boost signal (Event.Signals),
--     getopt_long and the multiplexer of nghttp2 (Server.Routes.ServeMux). What a proof needs of
--     them is a record of the documented behaviour: IsJson, IsJsonValue, IsCodec, IsBase64, IsGcm,
--     IsSignals, IsServeMux, Json.Objects.IsJsonObject, Handshake.Offer.ReadsCapabilities,
--     App.Arrival.Delivers for how HTTP/2 delivers a request to the server of its origin, and
--     App.EndToEnd.IsLawful for all that a service request needs. Examples has an instance of each
--     that meets it. Random bytes and UUIDs are arguments.
--   * `dump` is taken not to throw, so a response body that is not UTF-8 is outside of the model.
--
-- Fuel: `pad` of Jose has three rounds, since at most three bytes are missing to a multiple of
-- four; Jose.Padding shows that more rounds make no difference. `to_string` of Decimal has twenty,
-- one for a digit: what is printed is a `long` or narrower, which has at most nineteen.
--
-- The loop of the task manager never ends; Event.manage_tasks is its state after so many rounds.
--
-- Not modelled: the common configuration, of which App.Config has the values, the
-- Pistache server with its generated handlers, which are registered for no route, the TLS contexts
-- of nghttp2, the threads and the status file of main, and logging. Members that
-- the source sets and never reads are left out. A clock is the argument `ms`; the timer that the task
-- manager waits for is I/O, so a round is counted as one millisecond, as `t++` does.
pub mod Base
pub mod Search
pub mod Result
pub mod Telescopic
pub mod Jose
pub mod Dict
pub mod Json
pub mod Handler
pub mod Models
pub mod Handshake
pub mod Http
pub mod Forward
pub mod Decimal
pub mod Options
pub mod Program
pub mod SeppConfig
pub mod Profile
pub mod Event
pub mod Nrf
pub mod App
pub mod Server
pub mod Nbi
pub mod Sbi
pub mod Examples
