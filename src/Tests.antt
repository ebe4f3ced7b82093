-- ===== src/Tests.antt =====
-- Runs of the definitions on concrete inputs, among them one for each theorem with hypotheses.
mod Data
mod Link
mod Recv
mod Session
mod Sender
mod Small
mod Wire
mod SimNet
mod Ring
mod Connect
