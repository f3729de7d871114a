-- ===== src/SearchGuest/Css.antt =====
-- `CSS` of examples/search-rs/src/lib.rs.
use wasibrowser.Prelude.{[], ◌∷◌, ◌++◌, codes}
use wasibrowser.Bytes.{Bytes}

abbrev line : Bytes → Bytes → Bytes
line text rest = text ++ (10 ∷ rest)

unfoldable pub css : Bytes
css = line [] (
    line (codes ".ws{width:100%;min-height:100%;background:#0b0c09;color:#d7ddc9;") (
      line (codes "    font-family:ui-monospace,'Cascadia Mono','SF Mono',Consolas,monospace;") (
        line (codes "    padding:40px 44px}") (
          line (codes ".ws-wrap{max-width:820px;margin:0 auto}") (
            line (codes ".ws-head{display:flex;align-items:baseline;gap:2px;margin:0 0 6px}") (
              line
                (codes
                  ".ws-title{font-size:26px;font-weight:700;color:#ffb400;letter-spacing:-.01em}")
                (line (codes ".ws-cursor{color:#ffb400}") (
                  line
                    (codes
                      ".ws-sub{color:#71785f;font-size:12.5px;margin:0 0 26px;max-width:620px;line-height:1.6}")
                    (line
                      (codes
                        ".ws-bar{display:flex;border:1px solid #2a2f22;background:#101208;max-width:620px}")
                      (line
                        (codes
                          ".ws-input{flex:1;min-width:0;background:transparent;border:none;color:#d7ddc9;")
                        (line
                          (codes
                            "          font-family:inherit;font-size:13.5px;padding:12px 14px}")
                          (line
                            (codes
                              ".ws-go{background:#ffb400;color:#0b0c09;border:none;font-family:inherit;")
                            (line
                              (codes
                                "       font-weight:700;font-size:12.5px;padding:0 22px;cursor:pointer;letter-spacing:.06em}")
                              (line (codes ".ws-go:hover{background:#ffc23d}") (
                                line
                                  (codes
                                    ".ws-status{color:#565c47;font-size:11.5px;margin:18px 0 6px;letter-spacing:.03em;")
                                  (line (codes "           text-transform:uppercase}") (
                                    line
                                      (codes
                                        ".ws-rec{display:flex;gap:16px;padding:15px 0;border-bottom:1px dashed #21251a}")
                                      (line
                                        (codes
                                          ".ws-rank{flex:0 0 30px;color:#565c47;font-size:13px;padding-top:1px}")
                                        (line (codes ".ws-body{flex:1;min-width:0}") (
                                          line
                                            (codes
                                              ".ws-rtitle{color:#ffcf66;font-size:14.5px;font-weight:700;margin:0 0 3px 0}")
                                            (line
                                              (codes
                                                ".ws-rmeta{color:#565c47;font-size:11px;margin:0 0 6px 0;letter-spacing:.02em}")
                                              (line
                                                (codes
                                                  ".ws-rsnip{color:#a6ab95;font-size:13px;line-height:1.55;margin:0}")
                                                (line
                                                  (codes
                                                    ".ws-empty{color:#71785f;font-size:13px;padding:8px 0}")
                                                  (line
                                                    (codes
                                                      ".ws-links{display:flex;gap:18px;margin:34px 0 0;padding:16px 0 0;border-top:1px solid #21251a}")
                                                    (line
                                                      (codes
                                                        ".ws-link{background:transparent;border:none;color:#8a6a1f;font-family:inherit;font-size:12px;")
                                                      (line
                                                        (codes
                                                          "         cursor:pointer;letter-spacing:.02em;padding:0}")
                                                        (line
                                                          (codes ".ws-link:hover{color:#ffb400}")
                                                          ([]))))))))))))))))))))))))))))
