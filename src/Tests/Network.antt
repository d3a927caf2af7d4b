-- ===== src/Tests/Network.antt =====
-- A client and a server with the stores in memory, joined by a network that loses nothing.
use secure_store.Access.Memory as AccessMemory
use secure_store.Metadata.Memory as MetadataMemory
use secure_store.Security.Memory as SecurityMemory
use secure_store.Storage.Memory as StorageMemory
use secure_store.Users.Memory as UserMemory
use secure_store.Client.EndToEnd.{Connected, Gin, GinContract}
use secure_store.Compound.Memory.Stores.{MemoryCompound}
use secure_store.Effects.{Exec, Outcome, err, external, ok}
use secure_store.Effects.Reader.{Bytes, eof, new_reader, read_all, read_all-new_reader}
use secure_store.Http.{Http, HttpRequest, HttpResponse, header_value}
use secure_store.Prelude.{List, Option, String, [], ap, codes, inr, none, refl, some, ℕ, ◌∷◌}
use secure_store.Prelude.Int.{negsuc, pos}
use secure_store.Router.{Reply, abort_with_error, data_from_reader, file, html, secure_json, string}
use secure_store.Router.Api.{World}
use secure_store.Router.Routes.{Route, Server, find_route, handle}
use secure_store.Startup.{memory_access_store, memory_user_storage}
use secure_store.Tests.Samples.{ann, one_block, ordered_key, repeat, with_ann, with_bucket}
use secure_store.Text.{from_codes}
use secure_store.Url.{parse_query, parse_url, value_under}

abbrev pub NetworkWorld : Type 0
NetworkWorld = World MemoryCompound AccessMemory.MemoryStore UserMemory.MemoryStore

abbrev pub random : ℕ → Outcome (Bytes × ℕ)
random n = ok (repeat 32 7, 32)

abbrev pub the_server :
    Server MetadataMemory.MemoryStore SecurityMemory.MemorySecurityStore StorageMemory.MemoryStorage
      AccessMemory.MemoryStore UserMemory.MemoryStore
the_server = record {
  encrypt = one_block;
  metadata = MetadataMemory.memory_store;
  security = SecurityMemory.memory_security_store;
  storage = StorageMemory.memory_storage;
  access_store = memory_access_store;
  user_storage = memory_user_storage;
  rand_read = random;
  make_key = λ ex s. (ok ordered_key, s);
  make_user = λ json. ok ann;
  print_uuid = λ id. "2";
  gin_mode = "release";
}

unfoldable pub answer_with : List Reply → HttpResponse
answer_with [] = record { status_code = 200; body = eof; content_length = pos 0 }
answer_with (abort_with_error status e ∷ rs) = record {
  status_code = status;
  body = eof;
  content_length = pos 0;
}
answer_with (string status text ∷ rs) = record {
  status_code = status;
  body = new_reader (codes text);
  content_length = negsuc 0;
}
answer_with (data_from_reader status n content name ∷ rs) = record {
  status_code = status;
  body = content;
  content_length = n;
}
answer_with (secure_json status user ∷ rs) = record {
  status_code = status;
  body = eof;
  content_length = pos 0;
}
answer_with (html status name ∷ rs) = record {
  status_code = status;
  body = eof;
  content_length = pos 0;
}
answer_with (file path ∷ rs) = record { status_code = 200; body = eof; content_length = pos 0 }

unfoldable pub a_gin : Gin NetworkWorld
unfolding answer_with
a_gin = record {
  bind = λ r. record {
    query = λ name. from_codes (value_under (codes name) (parse_query (parse_url r.url).1));
    header = λ name. header_value name r.headers;
    body = r.body;
    content_length = r.body_length;
    json_key = err (external 2);
    json_user = err (external 2);
  };
  answer = λ h. answer_with h.replies;
}

pub a_gin-GinContract : GinContract a_gin
unfolding a_gin answer_with read_all
a_gin-GinContract = record {
  query_bound = λ r path fs name h. ap (λ q. from_codes (value_under (codes name) q)) h.query_read;
  header_bound = λ r name formed own. refl;
  body_bound = λ r formed. refl;
  length_bound = λ r formed. refl;
  string_answered = λ status text w. (codes text, read_all-new_reader (codes text));
  abort_answered = λ status e w. ([], refl);
  data_answered = λ n content plain filename w all_read announced. (refl, inr refl, all_read);
}

unfoldable pub answer_found : Option Route → HttpRequest → Exec NetworkWorld HttpResponse
answer_found none r w = (ok (record { status_code = 404; body = eof; content_length = pos 0 }), w)
answer_found (some x) r w =
    let h = handle the_server x (a_gin.bind r) w in (ok (a_gin.answer h), h.world)

unfoldable pub the_network : Http NetworkWorld
the_network = record {
  url_error = λ url. none;
  send = λ r. answer_found (find_route r.method (parse_url r.url).0) r;
}

pub network-Connected : (addr : String) → Connected the_server a_gin the_network addr
unfolding the_network answer_found
network-Connected addr = record {
  contract = a_gin-GinContract;
  sends =
      λ r target path fs x w there formed h found called finished. rw (h.path_read) (rw found refl);
}

abbrev pub server_world : NetworkWorld
server_world = record {
  objects = with_bucket;
  access = AccessMemory.new_memory_store (record { next_pointer = 0; cells = λ p. 0 }) 10;
  users = with_ann;
}
