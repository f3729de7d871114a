-- ===== src/SearchServer/Corpus.antt =====
-- The corpus of search-server/src/main.rs.
use wasibrowser.Prelude.{List, [], ◌∷◌, ◌++◌, codes}
use wasibrowser.SearchServer.Query.{Doc}

unfoldable pub corpus : List Doc
corpus =
    (record {
      title = codes "What WebAssembly actually is";
      url = codes "wasm://intro";
      body =
          codes "WebAssembly wasm is a binary instruction format for a stack based "
          ++ (codes "virtual machine designed as a portable compilation target for "
              ++ (codes "programming languages enabling deployment for client and server "
                  ++ (codes "applications on the web")));
    })
    ∷ (record {
      title = codes "The DOM boundary problem";
      url = codes "wasm://dom-boundary";
      body =
          codes "In a normal browser wasm code still must call through JavaScript "
          ++ (codes "bindings to touch the DOM every mutation crosses a costly JS to "
              ++ (codes "native boundary this per call marshaling overhead is the JS tax that "
                  ++ (codes "no wasm framework running inside a browser can avoid")));
    })
    ∷ (record {
      title = codes "Host-mediated RPC design";
      url = codes "wasm://rpc";
      body =
          codes "A freestanding wasm guest has no sockets and no threads so the host "
          ++ (codes "owns the network the guest asks a service to run a method and the "
              ++ (codes "reply arrives later as an event correlated by request id this mirrors "
                  ++ (codes "fetch exactly")));
    })
    ∷ (record {
      title = codes "Capability security instead of ambient authority";
      url = codes "wasm://capabilities";
      body =
          codes "A guest may call only the services its manifest declares an "
          ++ (codes "undeclared service name is rejected before any network io the wasm "
              ++ (codes "import list becomes the permission manifest extended to the network"));
    })
    ∷ (record {
      title = codes "Atoms: the string killer";
      url = codes "wasm://atoms";
      body =
          codes "Tag attribute and style names travel as u32 atoms well known atoms "
          ++ (codes "cover every renderable html tag and common style properties so common "
              ++ (codes "dom traffic carries zero string bytes across the abi boundary"));
    })
    ∷ (record {
      title = codes "Why in-process wasm is fast";
      url = codes "wasm://in-process";
      body =
          codes "When the wasm runtime lives inside the renderer process a guest write "
          ++ (codes "is a function call into the renderer address space instead of a "
              ++ (codes "message across a process boundary measured at nanoseconds per "
                  ++ (codes "operation")));
    })
    ∷ (record {
      title = codes "Reactified C: components in a header";
      url = codes "wasm://reactified-c";
      body =
          codes "A single header turns the c preprocessor into a component model with "
          ++ (codes "hooks state effects and a keyed identity reconciler proving that even "
              ++ (codes "freestanding c can have a pleasant react shaped authoring layer"));
    })
    ∷ (record {
      title = codes "The polyglot wire claim";
      url = codes "wasm://polyglot";
      body =
          codes "Go rust and c bindings for the same todo application emit byte "
          ++ (codes "identical traffic on the wire proving that the abi is truly language "
              ++ (codes "neutral and any community can build its own idiom on top"));
    })
    ∷ (record {
      title = codes "Async fetch without JavaScript";
      url = codes "wasm://fetch";
      body =
          codes "A wasm guest calls fetch and receives a request id completion arrives "
          ++ (codes "later as a net result event with status and body the host does the "
              ++ (codes "http work on a background thread while the guest stays single threaded"));
    })
    ∷ (record {
      title = codes "Object capabilities and attenuation";
      url = codes "wasm://ocap";
      body =
          codes "Authority is an unforgeable attenuable token that references a "
          ++ (codes "specific object and a set of rights rather than a role a caller can "
              ++ (codes "narrow a capability and hand it to someone else without sharing a "
                  ++ (codes "credential")));
    })
    ∷ (record {
      title = codes "Why browsers keep a semantic DOM";
      url = codes "wasm://semantic-dom";
      body =
          codes "Find in page password managers reader mode and screen readers all "
          ++ (codes "depend on a machine readable tree of real elements a fully custom "
              ++ (codes "painted surface forfeits every one of these for free platform features"));
    })
    ∷ (record {
      title = codes "wasmtime and the Engine lifecycle";
      url = codes "wasm://wasmtime";
      body =
          codes "A wasmtime engine is designed to be cheaply cloned and shared across "
          ++ (codes "many stores so a host running several guest tabs should create one "
              ++ (codes "engine process wide rather than one per guest load"));
    })
    ∷ (record {
      title = codes "Promise pipelining explained";
      url = codes "wasm://pipelining";
      body =
          codes "A pipelined rpc call invokes a method on the result of a call that "
          ++ (codes "has not returned yet collapsing a chain of dependent round trips into "
              ++ (codes "a single network round trip"));
    })
    ∷ (record {
      title = codes "Local-first sync";
      url = codes "wasm://local-first";
      body =
          codes "A guest can work against a local replica of the objects it holds "
          ++ (codes "capabilities to writes apply instantly and queue to a durable log "
              ++ (codes "while the network becomes a background sync detail rather than a "
                  ++ (codes "blocking dependency")));
    })
    ∷ []
