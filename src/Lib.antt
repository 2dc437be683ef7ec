-- ===== src/Lib.antt =====
-- Infinimail: a server for disposable mail. A domain is set up step by step (DNS records, an
-- ACME challenge, a certificate), the SMTP server takes mail for the active domains, and a
-- WebSocket hub tells the browsers of a mailbox about new messages.
--
-- Shared: Prelude has the numbers, Booleans, options and lists; Text has byte strings and, in
-- Case, Trim, Split, Replace and Decimal, the functions of the Go packages strings, regexp and
-- strconv that the code uses, on ASCII (other bytes stay as they are). Effect has Go's `(T,
-- error)` with the world that a call changes, Effect.Rules what an action keeps, and
-- Effect.Ensures what it ensures when it succeeds.
--
-- Models: the rows of the database, internal/models. A status is one of eight constants or
-- another string. Times are in seconds. Creation and update times are left out.
--
-- Repository: internal/repository. gorm is a parameter (`GormTable`, `DomainTable`,
-- `CertificateTable`, `MailboxTable`, `MessageTable`, `AttachmentTable`), with what it documents
-- as the hypotheses `TableLaws`: a row read is the row stored, and `Save` writes every column of
-- one row or, with an error or no row affected, none. Domains, Certificates, Mailboxes, Messages
-- and Attachments have the repositories, one definition for each method. The services use them
-- through the records `DomainRepository` and `CertificateRepository`, and the theorems on the
-- services assume `RowLaws` of the domain repository.
--
-- Services.DomainManager: internal/services/domain_manager.go. Random bytes are a parameter.
--
-- Services.DnsExport: internal/services/dns_exporter.go, the records of a guide as texts. The
-- text that encoding/json makes of a record is a parameter. Lines reads the names of a zone file
-- as RFC 1035 says.
--
-- Services.CertManager: internal/services/certificate_manager.go. The world of the service has
-- the database, the files, the ACME server, the name servers, the clock and the log; the record
-- `CertManager` has the calls that reach them, as the Go structure has its interfaces. Challenge
-- has RequestACMEChallenge, VerifyACMEDNS and GetACMEStatus; Submit has SubmitACMEChallenge,
-- Generate has GenerateCertificate, both over Issue, the certificate's record; Records has the
-- operations on certificates. The theorems assume (`KeepsDomains`) that the calls other than
-- those of the domain repository do not write to the table of domains. One service call runs at
-- a time: calls of other requests between its reads and writes are not modelled. Message texts
-- of the log, notes and suggested actions are left out; the texts of errors are there.
--
-- Services.CertFiles: internal/services/cert_storage.go, over the calls of the file system.
-- Services.CertStore: internal/services/cert_store.go, the certificates in memory; Dict is Go's
-- map with strings as keys. The locks are left out, so that an operation is one step. What the
-- reload callbacks do is a parameter. Smtp.Certificates: the choice of a certificate in
-- internal/smtp/backend.go; Smtp.Handshake joins the two.
--
-- Services.DnsVerifier: internal/services/dns_verifier.go. The resolver, the context and the
-- waiting are parameters. The loop of `verifyWithRetry` recurs on the number of rounds left, so
-- there is no fuel to run out of.
--
-- Services.Renewal: internal/services/cert_renewal.go. A round is an action over the certificate
-- manager; the job is a state with the stop channels and the loops, and a step for each of
-- Start, Stop and the moves of a loop.
--
-- Services.Acme: internal/services/acme_client.go. `Client` has the account, the orders and the
-- challenges that the Go structure keeps, and the rest of the world; golang.org/x/crypto/acme is
-- a parameter (`AcmeLibrary`). The polls of CompleteDNSChallenge recur on the attempts left, 60
-- as in the code. Services.Acme.Restart puts the certificate manager over the client.
--
-- Services.SetupLog: internal/services/acme_logger.go. The disk, the clock and encoding/json are
-- parameters.
--
-- Api: internal/api/response and the handlers of internal/api/handlers/domain_handler.go,
-- Api.Domains for the rows and Api.Setup for the set-up. A handler is a function from the world
-- to a response and the world after it; an early return is a response given at once. The body of
-- a request is given as it was decoded, or as nothing if it could not be. Api.Mail: the handlers
-- of mailboxes, messages and attachments, in mailbox_handler.go, message_handler.go and
-- attachment_handler.go.
--
-- Websocket.Hub: internal/websocket/hub.go. The hub's goroutine takes one request after another
-- from its channels, so a run is a sequence of events, in any order that the clients and the
-- sender of broadcasts produce. Clients are numbers, a Go map used as a set is a list without
-- duplicates (Websocket.Sets), and a send on a closed channel or a second close gives no result.
-- Hub.Protocol states the order of requests that ReadPump of internal/websocket/client.go and
-- the WebSocket endpoint of cmd/server/main.go keep for each client.
--
-- Websocket.Client: internal/websocket/client.go, as the requests that `ReadPump` sends to the
-- hub from the registration in cmd/server/main.go to the end of the connection.
-- Websocket.Sessions has the interleavings of such sessions. Websocket.WritePump is `WritePump`,
-- over the connection.
--
-- Smtp: internal/smtp/session.go. Address has parseEmailAddress, Commands has Mail, Rcpt and
-- Reset, Delivery has Data and processEmail. The reply to a command is a value (`Reply`), with
-- its code and message; the enhanced code is left out. The reading of an email, the file storage
-- and the message repository are parameters (`Backend`). The content of an attachment is a
-- reader that all recipients of a message share, so a delivery gives the email back with what
-- its readers have left. Snippet and Parser have internal/smtp/parser.go: generateSnippet,
-- stripHTMLTags, and ParseEmail over the reading of an envelope. A regular expression is the
-- length of its match at a place, or, for the From header, a function from the text to the
-- groups. Server and Certificates have the server of internal/smtp/backend.go, and Startup what
-- cmd/server/main.go starts.
--
-- Api.Middleware: Auth is the check of the API key of internal/api/middleware/auth.go; Origins
-- has the lists of origins of internal/api/middleware/cors.go and internal/websocket/origin.go;
-- Rate is internal/api/middleware/ratelimit.go, over any limiter with `Allow`.
--
-- The loops of the code run over lists, and the definitions recur on them. Only Text.Decimal,
-- the decimal text of an identifier in an error, runs on fuel: the number itself, which is
-- enough since each digit divides it by ten. Go's uint identifiers are natural numbers, which
-- are never computed with.
--
-- Not modelled: the pages and answers of internal/api/handlers/acme_log_handler.go and
-- health_handler.go and the table of routes, which are text and set-up of echo; the rest of the
-- middleware, which is set-up of libraries; the reading of MIME messages and the ACME protocol,
-- which are other libraries; internal/storage, whose operations are parameters;
-- internal/validator and the helpers of internal/errors and internal/models that nothing calls;
-- configuration, logging, the database's set-up and the rest of the start in cmd/server/main.go.
pub mod Prelude
pub mod Text
pub mod Dict
pub mod Effect
pub mod Models
pub mod Repository
pub mod Services
pub mod Websocket
pub mod Smtp
pub mod Api
pub mod Tests
